-- ===== src/Repo.antt =====
-- internal/infrastructure/mysql/files.go: the table of files. A SQL statement is read as its
-- meaning on the list of rows, in the order in which the table yields them. Two aliases are the
-- same to the database when their weight strings are (`Platform.weight`).
pub mod Transactions
pub mod Effects
pub mod Table
pub mod Pages
pub mod Calm
pub mod Order
pub mod Uniform
pub mod Statements
pub mod AnyOrder
pub mod Counts
use expire_share_api.Prelude.{
  ℕ, ◌+◌, ◌-◌, ◌*◌, ◌%◌, ◌^◌, Bool, true, false, not, ◌&&◌, String, Option, none, some, List, [],
  ◌∷◌, ◌++◌, ◌==◌, if◌then◌else◌, ltb, eqb, eqb_ℤ, ℤ, pos_part, neg_part, is_zero, pred_int16, map,
  length, take, drop, keep,
}
use expire_share_api.Domain.{
  File, FilesStat, AddFile, GetAllFiles, Error, sentinel, opaque, wrap, file_not_found,
  no_downloads_left, alias_taken, tx_done,
}
use expire_share_api.World.{
  Action, Done, Platform, World, Call, Result, ok, err, pure, raise, lift, gets, modify, on_error,
  call, clock, error_of, begin_tx, commit, insert_file, insert_id, select_file, count_files,
  page_files, scan_page, select_stat, select_downloads, update_downloads, delete_file,
  rows_affected, select_expired, scan_expired, prepare_delete, delete_alias, ◌>>=◌, ◌>>◌,
}

-- Time.Add. Instants before the epoch do not occur.
abbrev pub add_duration : ℕ → ℤ → ℕ
add_duration t d = t + pos_part d - neg_part d

module _ (p : Platform) where
  -- WHERE alias = ?
  abbrev pub same_alias : String → File → Bool
  same_alias alias f = p.weight f.alias == p.weight alias

  -- WHERE alias = ? AND expires_at > NOW()
  abbrev pub is_live : ℕ → String → File → Bool
  is_live now alias f = same_alias alias f && ltb now f.expires_at

-- The first row that passes a test.
abbrev pub find_row : (File → Bool) → List File → Option File
find_row test [] = none
find_row test (f ∷ fs) = if test f then some f else find_row test fs

-- WHERE user_id = ? AND expires_at > NOW()
abbrev pub is_owned : ℕ → ℤ → File → Bool
is_owned now user f = eqb_ℤ f.user_id user && ltb now f.expires_at

-- SUM(file_size)
abbrev pub sum_size : List File → ℕ
sum_size [] = 0
sum_size (f ∷ fs) = f.size + sum_size fs

-- SET downloads_left = ? on every row that passes the test
abbrev pub set_downloads : (File → Bool) → ℤ → List File → List File
set_downloads test n [] = []
set_downloads test n (f ∷ fs) =
    (if test f then record f { downloads_left = n } else f) ∷ set_downloads test n fs

abbrev or_not_found : Option File → Result File
or_not_found none = err (sentinel file_not_found)
or_not_found (some f) = ok f

-- A statement of the open transaction. After its end database/sql answers ErrTxDone.
pub in_tx : {A : Type 0} → Call → (ℕ → List File → Result A × List File) → Action A
in_tx c f env w = elim w.tx [
  | none ↦ (err (sentinel tx_done), w)
  | some rows ↦ elim (env.fault c) [
    | some e ↦ (err (error_of e), w)
    | none ↦ let (r, rows') = f (env.now c) rows in (r, record w { tx = some rows' })
  ]
]

-- FileRepo.BeginTx
pub begin : Action Done
begin = do call begin_tx; modify (λ w. record w { tx = some w.rows })

-- tx.Commit: the transaction is over also where it reports an error.
pub commit_work : Action Done
commit_work env w = elim w.tx [
  | none ↦ (err (sentinel tx_done), w)
  | some rows ↦ elim (env.fault commit) [
    | none ↦ (ok tt, record w { rows = rows; tx = none })
    | some e ↦ (
      err (error_of e),
      record w { rows = if env.commit_applied then rows else w.rows; tx = none },
    )
  ]
]

-- A statement outside a transaction.
pub query : {A : Type 0} → Call → (ℕ → List File → A) → Action A
query c f env w = elim (env.fault c) [
  | none ↦ (ok (f (env.now c) w.rows), w)
  | some e ↦ (err (error_of e), w)
]

-- FileRepo.GetFilesStatByUserID. It counts the expired rows too.
pub get_files_stat_by_user_id : ℤ → Action FilesStat
unfolding query
get_files_stat_by_user_id user =
    on_error (wrap "repository.mysql.FileRepo.GetFilesStatByUserID: failed to query sql") (
      query select_stat (λ now rows.
        let mine = keep (λ f. eqb_ℤ f.user_id user) rows in
        record { user_id = user; count = length mine; size = sum_size mine }))

-- `(command.Page - 1) * command.Limit` on int64, as an unsigned number: from 2 ^ 63 on it is negative.
abbrev pub offset_of : GetAllFiles → ℕ
offset_of cmd = (cmd.page - 1) * cmd.limit % 2 ^ 64

abbrev pub page_of : GetAllFiles → ℕ → List File → List File
page_of cmd now rows = take cmd.limit (drop (offset_of cmd) (keep (is_owned now cmd.user_id) rows))

-- The page's query: MySQL refuses a negative offset.
query_page : GetAllFiles → Action (List File)
unfolding query
query_page cmd =
    if ltb (offset_of cmd) (2 ^ 63)
    then query page_files (page_of cmd)
    else raise (opaque "Incorrect arguments to mysqld_stmt_execute")

-- FileRepo.GetFilesByUserID: the page and the total. `Page` is at least 1.
pub get_files_by_user_id : GetAllFiles → Action (List File × ℕ)
unfolding query query_page
get_files_by_user_id cmd = do
  total ←
      on_error (wrap "repository.mysql.FileRepo.GetFilesByUserID: failed to query sql")
        (query count_files (λ now rows. length (keep (is_owned now cmd.user_id) rows)))
  if eqb total 0 then pure ([], 0) else do
    files ←
        on_error (wrap "repository.mysql.FileRepo.GetFilesByUserID: failed to query sql")
          (query_page cmd)
    on_error (wrap "repository.mysql.FileRepo.GetFilesByUserID: failed to scan row")
        (call scan_page)
    pure (files, total)

-- SELECT alias FROM files WHERE expires_at < NOW() LIMIT ?
abbrev pub expired_aliases : ℕ → ℕ → List File → List String
expired_aliases limit now rows =
    map (λ f. f.alias) (take limit (keep (λ f. ltb f.expires_at now) rows))

module _ (p : Platform) where
  -- FileRepo.GetFileByAlias
  pub get_file_by_alias : String → Action File
  unfolding query
  get_file_by_alias alias = do
    found ←
        on_error (wrap "repository.mysql.FileRepo.GetFileByAlias: failed to query sql")
          (query select_file (λ now rows. find_row (is_live p now alias) rows))
    lift (or_not_found found)

  abbrev pub new_row : AddFile → ℕ → File
  new_row cmd now = record {
    name = cmd.filename;
    size = cmd.filesize;
    alias = cmd.alias;
    downloads_left = cmd.max_downloads;
    password_hash = cmd.password_hash;
    loaded_at = p.timestamp now;
    expires_at = p.timestamp (add_duration now cmd.ttl);
    user_id = cmd.user_id;
  }

  -- INSERT INTO files, under UNIQUE KEY (alias): `false` is error 1062, a duplicate entry.
  unfoldable pub insert_row : AddFile → ℕ → List File → Result Bool × List File
  insert_row cmd now rows = elim (find_row (same_alias p cmd.alias) rows) [
    | some _ ↦ (ok false, rows)
    | none ↦ (ok true, rows ++ new_row cmd now ∷ [])
  ]

  -- FileRepo.AddFileTx. The id that it returns is not used by its caller.
  pub add_file_tx : AddFile → Action Done
  unfolding in_tx insert_row
  add_file_tx cmd = do
    inserted ←
        on_error (wrap "repository.mysql.FileRepo.AddFile: failed to exec sql")
          (in_tx insert_file (insert_row cmd))
    if inserted
        then on_error (wrap "repository.mysql.FileRepo.AddFile: failed to get last insert id")
            (call insert_id)
        else raise (sentinel alias_taken)

  -- The test and the decrement in the program, and the write.
  decrement_found : String → File → Action ℤ
  decrement_found alias f =
      if is_zero f.downloads_left then raise (sentinel no_downloads_left) else do
        let left = pred_int16 f.downloads_left
        on_error (wrap "repository.mysql.FileRepo.DecrementDownloadsByAlias: failed to exec sql") (
            in_tx update_downloads
              (λ now rows. (ok tt, set_downloads (same_alias p alias) left rows)))
        pure left

  -- FileRepo.DecrementDownloadsByAliasTx
  pub decrement_downloads_by_alias_tx : String → Action ℤ
  decrement_downloads_by_alias_tx alias = do
    found ←
        on_error (wrap "repository.mysql.FileRepo.DecrementDownloadsByAlias: failed to exec sql")
          (in_tx select_downloads (λ now rows. (ok (find_row (is_live p now alias) rows), rows)))
    f ← lift (or_not_found found)
    decrement_found alias f

  -- DELETE FROM files WHERE alias = ? AND expires_at > NOW(): the number of rows that it removed.
  delete_live : String → ℕ → List File → Result ℕ × List File
  delete_live alias now rows =
      (ok (length (keep (is_live p now alias) rows)), keep (λ f. not (is_live p now alias f)) rows)

  -- FileRepo.DeleteFileTx
  pub delete_file_tx : String → Action Done
  unfolding in_tx delete_live
  delete_file_tx alias = do
    n ←
        on_error (wrap "repository.mysql.FileRepo.DeleteFile: failed to exec sql")
          (in_tx delete_file (delete_live alias))
    on_error (wrap "repository.mysql.FileRepo.DeleteFile: failed to affect rows")
        (call rows_affected)
    if eqb n 0 then raise (sentinel file_not_found) else pure tt

  -- The loop of FileRepo.DeleteExpiredFilesTx: DELETE FROM files WHERE alias = ?
  pub delete_each : List String → Action Done
  delete_each [] = pure tt
  delete_each (alias ∷ rest) =
      on_error (wrap "repository.mysql.FileRepo.DeleteExpiredFiles: failed to exec sql") (
        in_tx (delete_alias alias)
          (λ now rows. (ok tt, keep (λ f. not (same_alias p alias f)) rows)))
      >> delete_each rest

  -- The end of FileRepo.DeleteExpiredFilesTx: nothing is prepared for an empty batch.
  delete_found : List String → Action (List String)
  delete_found [] = pure []
  delete_found (a ∷ rest) = do
    on_error (wrap "repository.mysql.FileRepo.DeleteExpiredFiles: failed to prepare stmt")
        (call prepare_delete)
    delete_each (a ∷ rest)
    pure (a ∷ rest)

  -- FileRepo.DeleteExpiredFilesTx
  pub delete_expired_files_tx : ℕ → Action (List String)
  delete_expired_files_tx limit = do
    aliases ←
        on_error (wrap "repository.mysql.FileRepo.DeleteExpiredFiles: failed to exec sql")
          (in_tx select_expired (λ now rows. (ok (expired_aliases limit now rows), rows)))
    on_error (wrap "repository.mysql.FileRepo.DeleteExpiredFiles: failed to scan alias")
        (call scan_expired)
    delete_found aliases
