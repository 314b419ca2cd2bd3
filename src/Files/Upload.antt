-- ===== src/Files/Upload.antt =====
-- UploadFile: what it has done when it returns an alias, and when it fails.
use expire_share_api.Prelude.{
  String, none, some, List, [], ◌∷◌, ◌++◌, ◌≡◌, ◌≢◌, refl, arith, ◌==◌, if◌then◌else◌,
}
use expire_share_api.Domain.{File, UploadFile, Permissions, wrap}
use expire_share_api.World.{
  World, Env, Platform, ok, insert_file, ◌>>=◌, ◌>>◌, pure, on_error, unless_success, rolled_back,
}
use expire_share_api.World.Post.{
  Post, Post-bind, Post-rewrap, Post-mono, Post-lift, Post-unless_success,
}
use expire_share_api.Storage.{entries}
use expire_share_api.Storage.Effects.{uploaded, upload-Post}
use expire_share_api.Repo.{begin, new_row}
use expire_share_api.Repo.Table.{row_at}
use expire_share_api.Repo.Effects.{add_file_tx-Post}
use expire_share_api.Repo.Transactions.{
  stat_of, TxOnly-of_tx, begin-Post, commit_work-Post, get_files_stat-Post,
}
use expire_share_api.Files.{upload_file, store_file, hash_given, check_upload_quote}
use expire_share_api.Files.Outcome.{
  Failed, Failed-refl, Failed-of_TxOnly, Failed-of_FolderOnly, Failed-of_commit, Failed-of_rollback,
}

abbrev pub hash_of : Platform → Env → String → String
hash_of p env password = if password == "" then "" else p.bcrypt_generate env.salt password

module _ (p : Platform) (cmd : UploadFile) (alias : String) (env : Env) where
  -- The row that an upload adds.
  abbrev pub row_of : String → File
  row_of hash =
      new_row p
        (record {
          filename = cmd.filename;
          filesize = cmd.filesize;
          alias = alias;
          max_downloads = cmd.max_downloads;
          password_hash = hash;
          ttl = cmd.ttl;
          user_id = cmd.user.user_id;
        })
        (env.now insert_file)

  abbrev Fresh : List File → Type 0
  Fresh rows = row_at p alias rows ≡ none

  -- One row more, under an alias that no row had, and the file in the folder of the alias.
  pub record Uploads (hash : String) (w : World) (a : String) (w' : World) : Type 0 where
    pub name : a ≡ alias
    pub fresh : row_at p alias w.rows ≡ none
    pub rows : w'.rows ≡ w.rows ++ row_of hash ∷ []
    pub closed : w'.tx ≡ none
    pub handles : w'.open_files ≡ w.open_files
    pub folder : entries alias w'.folders ≡ uploaded cmd.file cmd.filename (entries alias w.folders)
    pub others : (b : String) → alias ≢ b → entries b w'.folders ≡ entries b w.folders

  store_file-Post :
      (hash : String) (w : World)
      → Post
          (Uploads hash w)
          (λ _ w'. Failed (w.rows ++ row_of hash ∷ []) (Fresh w.rows) alias env w w')
          (store_file p cmd alias hash env (record w { tx = some w.rows }))
  unfolding store_file pure
  store_file-Post hash w =
      let begun : World = record w { tx = some w.rows } in
      let new : List File = w.rows ++ row_of hash ∷ [] in
      Post-bind env begun _ _
        (Post-rewrap env begun _ _ (add_file_tx-Post p _ env begun w.rows refl))
        (λ _ v q. rw q.1 (
          Post-bind env _ _ _
            (Post-rewrap env _ _ _
              (upload-Post cmd.file alias cmd.filename env (record w { tx = some new })))
            (λ _ u f.
              Post-bind env u _ _ (Post-rewrap env u _ _ (commit_work-Post env u new f.0.tx))
                (λ _ x c. record {
                  holds = rw c (record {
                    name = refl;
                    fresh = q.0;
                    rows = refl;
                    closed = refl;
                    handles = f.0.open_files;
                    folder = f.1;
                    others = f.0.others;
                  });
                })
                (λ _ x c. Failed-of_commit new (Fresh w.rows) alias env w q.0 f.0 c))
            (λ _ u f. Failed-of_FolderOnly new (Fresh w.rows) alias env w f)))
        (λ _ v t. Failed-of_TxOnly new (Fresh w.rows) alias env w (TxOnly-of_tx w t))

  pub hash_given-Post :
      (w : World)
      → Post
          (λ h v. (v ≡ w) × (h ≡ hash_of p env cmd.password))
          (λ _ v. v ≡ w)
          (hash_given p cmd.password env w)
  unfolding hash_given
  hash_given-Post w = record { holds = ground arith }

  after_quota :
      (w : World)
      → w.tx ≡ none
      → Post
          (Uploads (hash_of p env cmd.password) w)
          (λ _ w'.
            Failed
              (w.rows ++ row_of (hash_of p env cmd.password) ∷ [])
              (Fresh w.rows)
              alias
              env
              w
              w'
            × (w'.tx ≡ none))
          (◌>>=◌
            (hash_given p cmd.password)
            (λ hash.
              on_error (wrap "services.file.Service.UploadFile: failed to upload file") begin
              >> unless_success rolled_back (store_file p cmd alias hash))
            env
            w)
  after_quota w idle =
      let new : List File = w.rows ++ row_of (hash_of p env cmd.password) ∷ [] in
      Post-bind env w _ _ (hash_given-Post w)
        (λ hash v q.
          rw (q.0, q.1)
            (Post-bind env w _ _ (Post-rewrap env w _ _ (begin-Post env w))
              (λ _ u e. rw e (
                Post-unless_success env _ _ _ (
                  Post-mono _ (λ a x h. h)
                    (λ _ x h. (Failed-of_rollback new (Fresh w.rows) alias env w h, refl))
                    (store_file-Post (hash_of p env cmd.password) w))))
              (λ _ u e. rw e (Failed-refl new (Fresh w.rows) alias env w, idle))))
        (λ _ v e. rw e (Failed-refl new (Fresh w.rows) alias env w, idle))

-- UploadFile.
module _ (p : Platform) (cfg : Permissions) (cmd : UploadFile) (alias : String) (env : Env)
    (w : World) where
  abbrev pub new_rows : List File
  new_rows = w.rows ++ row_of p cmd alias env (hash_of p env cmd.password) ∷ []

  -- In a state with no transaction open: an upload that returns has passed the quota test on the
  -- owner's files, adds exactly one row to the table, under an alias that no row had, and the
  -- file's folder, and leaves the folders of the other aliases alone. One that fails leaves the
  -- table, unless the server applied a commit that it reported as failed. No transaction stays open.
  pub upload_file-Post :
      w.tx ≡ none
      → Post
          (λ a w'.
            (check_upload_quote cfg (stat_of cmd.user.user_id w.rows) cmd.filesize cmd.user.roles
              ≡ ok tt)
            × Uploads p cmd alias env (hash_of p env cmd.password) w a w')
          (λ _ w'. Failed new_rows (row_at p alias w.rows ≡ none) alias env w w' × (w'.tx ≡ none))
          (upload_file p cfg cmd alias env w)
  unfolding upload_file
  upload_file-Post idle =
      Post-bind env w _ _ (Post-rewrap env w _ _ (get_files_stat-Post cmd.user.user_id env w))
        (λ stat v q.
          rw (q.0, q.1)
            (Post-bind
              {Q = λ _ u.
                (u ≡ w)
                × (check_upload_quote cfg (stat_of cmd.user.user_id w.rows) cmd.filesize
                      cmd.user.roles
                    ≡ ok tt)}
              env w _ _
              (Post-rewrap {F = λ u. u ≡ w} env w _ _
                (Post-lift env w _ (λ _ e. (refl, e)) (λ _ _. refl)))
              (λ _ u q.
                rw q.0 (
                  Post-mono _ (λ a x h. (q.1, h)) (λ _ x h. h)
                    (after_quota p cmd alias env w idle)))
              (λ _ u e.
                rw e (Failed-refl new_rows (row_at p alias w.rows ≡ none) alias env w, idle))))
        (λ _ v e. rw e (Failed-refl new_rows (row_at p alias w.rows ≡ none) alias env w, idle))
