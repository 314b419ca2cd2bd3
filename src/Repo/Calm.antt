-- ===== src/Repo/Calm.antt =====
-- What the statements return when no call fails.
use expire_share_api.Repo.Effects.{without}
use expire_share_api.Repo.Transactions.{stat_of}
use expire_share_api.Prelude.{
  ℕ, ℤ, [], ◌∷◌, ◌++◌, refl, String, none, some, List, not, false, true, ◌≡◌, arith, eqb, is_zero,
  pred_int16, length, keep, eqb,
}
use expire_share_api.Domain.{File, AddFile, sentinel, file_not_found, no_downloads_left}
use expire_share_api.World.{
  World, Env, Platform, Call, ok, err, select_file, select_downloads, update_downloads, delete_file,
  rows_affected, begin_tx, insert_file, insert_id, select_stat, delete_alias, prepare_delete,
  select_expired, scan_expired, commit, ◌>>=◌, pure,
}
use expire_share_api.Repo.{
  delete_each, delete_expired_files_tx, delete_found, expired_aliases, begin, commit_work,
  get_file_by_alias, decrement_downloads_by_alias_tx, delete_file_tx, decrement_found, in_tx, query,
  get_files_stat_by_user_id, add_file_tx, insert_row, new_row, delete_live, find_row, is_live,
  same_alias, set_downloads,
}

-- It needs no more than an answer to its own query.
pub get_file_by_alias-found :
    (p : Platform) (env : Env)
    → env.fault select_file ≡ none
    → (w : World) (alias : String) (f : File)
    → find_row (is_live p (env.now select_file) alias) w.rows ≡ some f
    → get_file_by_alias p alias env w ≡ (ok f, w)
unfolding get_file_by_alias query ◌>>=◌
get_file_by_alias-found p env up w alias f h = ground arith

module _ (p : Platform) (env : Env) (calm : (c : Call) → env.fault c ≡ none) (w : World) where
  pub begin-calm : begin env w ≡ (ok tt, record w { tx = some w.rows })
  unfolding begin ◌>>=◌
  begin-calm = ground (arith, calm begin_tx)

  pub get_files_stat-calm :
      (user : ℤ) → get_files_stat_by_user_id user env w ≡ (ok (stat_of user w.rows), w)
  unfolding get_files_stat_by_user_id query ◌>>=◌
  get_files_stat-calm user = ground (arith, calm select_stat)

  pub get_file_by_alias-calm :
      (alias : String) (f : File)
      → find_row (is_live p (env.now select_file) alias) w.rows ≡ some f
      → get_file_by_alias p alias env w ≡ (ok f, w)
  get_file_by_alias-calm alias f h = get_file_by_alias-found p env (calm select_file) w alias f h

  module _ (rows : List File) (opened : w.tx ≡ some rows) where
    pub commit_work-calm : commit_work env w ≡ (ok tt, record w { rows = rows; tx = none })
    unfolding commit_work
    commit_work-calm = ground (arith, calm commit)

    pub add_file_tx-calm :
        (cmd : AddFile)
        → find_row (same_alias p cmd.alias) rows ≡ none
        → add_file_tx p cmd env w
          ≡ (ok tt, record w { tx = some (rows ++ new_row p cmd (env.now insert_file) ∷ []) })
    unfolding add_file_tx insert_row in_tx ◌>>=◌
    add_file_tx-calm cmd h = ground (arith, calm insert_file, calm insert_id)

    pub decrement-calm :
        (alias : String) (f : File)
        → find_row (is_live p (env.now select_downloads) alias) rows ≡ some f
        → is_zero f.downloads_left ≡ false
        → decrement_downloads_by_alias_tx p alias env w ≡ (
          ok (pred_int16 f.downloads_left),
          record w {
            tx = some (set_downloads (same_alias p alias) (pred_int16 f.downloads_left) rows);
          },
        )
    unfolding decrement_downloads_by_alias_tx decrement_found in_tx ◌>>=◌
    decrement-calm alias f h z = ground (arith, calm select_downloads, calm update_downloads)

    -- What the program refuses: no live row, or none left to count.
    pub decrement-missing :
        (alias : String)
        → find_row (is_live p (env.now select_downloads) alias) rows ≡ none
        → decrement_downloads_by_alias_tx p alias env w
          ≡ (err (sentinel file_not_found), record w { tx = some rows })
    unfolding decrement_downloads_by_alias_tx in_tx ◌>>=◌
    decrement-missing alias h = ground (arith, calm select_downloads)

    pub decrement-empty :
        (alias : String) (f : File)
        → find_row (is_live p (env.now select_downloads) alias) rows ≡ some f
        → is_zero f.downloads_left ≡ true
        → decrement_downloads_by_alias_tx p alias env w
          ≡ (err (sentinel no_downloads_left), record w { tx = some rows })
    unfolding decrement_downloads_by_alias_tx decrement_found in_tx ◌>>=◌
    decrement-empty alias f h z = ground (arith, calm select_downloads)

    pub delete_file_tx-missing :
        (alias : String)
        → eqb (length (keep (is_live p (env.now delete_file) alias) rows)) 0 ≡ true
        → delete_file_tx p alias env w ≡ (
          err (sentinel file_not_found),
          record w { tx = some (keep (λ g. not (is_live p (env.now delete_file) alias g)) rows) },
        )
    unfolding delete_file_tx delete_live in_tx ◌>>=◌
    delete_file_tx-missing alias h = ground (arith, calm delete_file, calm rows_affected)

    pub delete_file_tx-calm :
        (alias : String)
        → eqb (length (keep (is_live p (env.now delete_file) alias) rows)) 0 ≡ false
        → delete_file_tx p alias env w ≡ (
          ok tt,
          record w { tx = some (keep (λ g. not (is_live p (env.now delete_file) alias g)) rows) },
        )
    unfolding delete_file_tx delete_live in_tx ◌>>=◌
    delete_file_tx-calm alias h = ground (arith, calm delete_file, calm rows_affected)

module _ (p : Platform) (env : Env) (calm : (c : Call) → env.fault c ≡ none) where
  delete_each-calm :
      (aliases : List String) (w : World) (rows : List File)
      → w.tx ≡ some rows
      → delete_each p aliases env w ≡ (ok tt, record w { tx = some (without p aliases rows) })
  unfolding delete_each in_tx pure ◌>>=◌
  delete_each-calm [] w rows h = ground arith
  delete_each-calm (a ∷ more) w rows h =
      let left = keep (λ f. not (same_alias p a f)) rows in
      ground (
        arith,
        calm (delete_alias a),
        delete_each-calm more (record w { tx = some left }) left refl,
      )

  delete_found-calm :
      (found : List String) (w : World) (rows : List File)
      → w.tx ≡ some rows
      → delete_found p found env w ≡ (ok found, record w { tx = some (without p found rows) })
  unfolding delete_found pure ◌>>=◌
  delete_found-calm [] w rows h = ground arith
  delete_found-calm (a ∷ more) w rows h =
      ground (arith, calm prepare_delete, delete_each-calm (a ∷ more) w rows h)

  pub delete_expired-calm :
      (limit : ℕ) (w : World) (rows : List File)
      → w.tx ≡ some rows
      → let found = expired_aliases limit (env.now select_expired) rows in
        delete_expired_files_tx p limit env w
        ≡ (ok found, record w { tx = some (without p found rows) })
  unfolding delete_expired_files_tx in_tx ◌>>=◌
  delete_expired-calm limit w rows h =
      let found = expired_aliases limit (env.now select_expired) rows in
      ground (
        arith,
        calm select_expired,
        calm scan_expired,
        delete_found-calm found (record w { tx = some rows }) rows refl,
      )
