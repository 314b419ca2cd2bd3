-- ===== src/Files/Written.antt =====
-- UploadFile, with the file that a new row has in its folder, where every commit is applied.
use expire_share_api.Prelude.{
  String, none, some, List, [], ◌∷◌, ◌++◌, true, ◌≡◌, ◌≢◌, ◌⊎◌, inl, inr, refl,
}
use expire_share_api.Domain.{File, UploadFile, Permissions, wrap}
use expire_share_api.World.{
  World, Env, Platform, ◌>>=◌, ◌>>◌, pure, on_error, unless_success, rolled_back,
}
use expire_share_api.World.Post.{
  Post, Post-bind, Post-rewrap, Post-mono, Post-lift, Post-unless_success,
}
use expire_share_api.Storage.{entries, base}
use expire_share_api.Storage.Folders.{holds_file, has_entry-write_entry}
use expire_share_api.Storage.Effects.{stored_file, upload-Post}
use expire_share_api.Repo.{begin}
use expire_share_api.Repo.Table.{row_at}
use expire_share_api.Repo.Effects.{add_file_tx-Post}
use expire_share_api.Repo.Transactions.{
  begin-Post, get_files_stat-Post, Applies, commit_work-Applies,
}
use expire_share_api.Files.{upload_file, store_file, hash_given, check_upload_quote}
use expire_share_api.Files.Upload.{row_of, hash_of, hash_given-Post}
use expire_share_api.Files.Atomic.{Same, Same-of_eq}

module _ (p : Platform) (cmd : UploadFile) (alias : String) (env : Env) (a : Applies env)
    (w : World) where
  abbrev pub with_new : List File
  with_new = w.rows ++ row_of p cmd alias env (hash_of p env cmd.password) ∷ []

  -- The alias was free; the other folders are as before; and the row is there, with its file in the
  -- folder, or it is not.
  pub record Written (x : World) : Type 0 where
    pub fresh : row_at p alias w.rows ≡ none
    pub others : (b : String) → alias ≢ b → entries b x.folders ≡ entries b w.folders
    pub rows :
        (x.rows ≡ w.rows)
        ⊎ ((x.rows ≡ with_new) × (holds_file (base cmd.filename) (entries alias x.folders) ≡ true))

  store_file-Written :
      Post
        (λ _ x. Written x)
        (λ _ x. Same w x ⊎ Written x)
        (store_file p cmd alias (hash_of p env cmd.password) env (record w { tx = some w.rows }))
  unfolding store_file pure
  store_file-Written =
      let begun : World = record w { tx = some w.rows } in
      let v : World = record w { tx = some with_new } in
      Post-bind env begun _ _
        (Post-rewrap env begun _ _ (add_file_tx-Post p _ env begun w.rows refl))
        (λ _ _ q. rw q.1 (
          Post-bind env v _ _
            (Post-rewrap env v _ _ (upload-Post cmd.file alias cmd.filename env v))
            (λ _ u f.
              let done : (t : World) → t ≡ record u { rows = with_new; tx = none } → Written t =
                λ t c. rw c record {
                  fresh = q.0;
                  others = f.0.others;
                  rows =
                      inr (
                        refl,
                        rw f.1 (has_entry-write_entry (stored_file cmd.file cmd.filename) _),
                      );
                } in
              Post-bind env u _ _
                (Post-rewrap env u _ _ (commit_work-Applies env u with_new a f.0.tx))
                (λ _ t c. record { holds = done t c }) (λ _ t c. inr (done t c)))
            (λ _ u f. inr record { fresh = q.0; others = f.others; rows = inl f.rows })))
        (λ _ _ t. inl record { rows = t.rows; folders = t.folders })

  undone : (x : World) → Same w x ⊎ Written x → Same w (rolled_back x) ⊎ Written (rolled_back x)
  undone x (inl h) = inl record { rows = h.rows; folders = h.folders }
  undone x (inr h) = inr record { fresh = h.fresh; others = h.others; rows = h.rows }

  after_quota-Written :
      Post
        (λ _ x. Written x)
        (λ _ x. Same w x ⊎ Written x)
        (◌>>=◌
          (hash_given p cmd.password)
          (λ hash.
            on_error (wrap "services.file.Service.UploadFile: failed to upload file") begin
            >> unless_success rolled_back (store_file p cmd alias hash))
          env
          w)
  after_quota-Written =
      Post-bind env w _ _ (hash_given-Post p cmd alias env w)
        (λ hash v q.
          rw (q.0, q.1)
            (Post-bind env w _ _ (Post-rewrap env w _ _ (begin-Post env w))
              (λ _ u e. rw e (
                Post-unless_success env _ _ _
                  (Post-mono _ (λ _ x h. h) (λ _ x h. undone x h) store_file-Written)))
              (λ _ u e. inl (Same-of_eq e))))
        (λ _ v e. inl (Same-of_eq e))

  -- UploadFile.
  pub upload_file-Written :
      (cfg : Permissions)
      → Post (λ _ x. Written x) (λ _ x. Same w x ⊎ Written x) (upload_file p cfg cmd alias env w)
  unfolding upload_file
  upload_file-Written cfg =
      Post-bind env w _ _ (Post-rewrap env w _ _ (get_files_stat-Post cmd.user.user_id env w))
        (λ stat v q. rw q.0 (
          Post-bind {Q = λ _ u. u ≡ w} env w _ _
            (Post-rewrap {F = λ u. u ≡ w} env w _ _ (
              Post-lift env w (check_upload_quote cfg stat cmd.filesize cmd.user.roles)
                (λ _ _. refl) (λ _ _. refl)))
            (λ _ u e. rw e after_quota-Written) (λ _ u e. inl (Same-of_eq e))))
        (λ _ v e. inl (Same-of_eq e))
