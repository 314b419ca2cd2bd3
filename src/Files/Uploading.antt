-- ===== src/Files/Uploading.antt =====
-- UploadFile where no call fails: it stores the file, or it refuses and changes nothing.
use expire_share_api.Prelude.{
  String, none, some, [], ◌∷◌, ◌++◌, ◌≡◌, ◌≢◌, ◌⊎◌, inl, inr, refl, arith, Option-cases,
}
use expire_share_api.Domain.{File, UploadFile, Permissions, wrap}
use expire_share_api.World.{
  World, Env, Platform, Call, ok, ◌>>=◌, ◌>>◌, pure, on_error, unless_success, rolled_back,
  hash_password,
}
use expire_share_api.World.Post.{
  Post, Post-bind, Post-rewrap, Post-mono, Post-lift, Post-unless_success,
}
use expire_share_api.Storage.{entries}
use expire_share_api.Storage.Effects.{full, full-uploaded, full-FolderOnly, uploaded}
use expire_share_api.Storage.Calm.{upload-calm}
use expire_share_api.Repo.{begin}
use expire_share_api.Repo.Table.{row_at}
use expire_share_api.Repo.Effects.{add_file_tx-Post}
use expire_share_api.Repo.Calm.{begin-calm, commit_work-calm, add_file_tx-calm, get_files_stat-calm}
use expire_share_api.Repo.Transactions.{stat_of}
use expire_share_api.Files.{upload_file, store_file, hash_given, check_upload_quote}
use expire_share_api.Files.Upload.{row_of, hash_of}
use expire_share_api.Files.Atomic.{Same, Same-refl}
use expire_share_api.Files.Progress.{Returns, Returns-of_eq}

module _ (p : Platform) (cmd : UploadFile) (alias : String) (env : Env)
    (calm : (c : Call) → env.fault c ≡ none) (w : World) where
  abbrev new_row_of : File
  new_row_of = row_of p cmd alias env (hash_of p env cmd.password)

  -- The row is there, and its file; all else is as it was.
  pub record Stores (a : String) (x : World) : Type 0 where
    pub name : a ≡ alias
    pub fresh : row_at p alias w.rows ≡ none
    pub rows : x.rows ≡ w.rows ++ new_row_of ∷ []
    pub tx : x.tx ≡ none
    pub handles : x.open_files ≡ w.open_files
    pub folder : entries alias x.folders ≡ uploaded cmd.file cmd.filename (entries alias w.folders)
    pub others : (b : String) → alias ≢ b → entries b x.folders ≡ entries b w.folders

  store_file-free :
      row_at p alias w.rows ≡ none
      → Returns
          (λ a x. Stores a x)
          (store_file p cmd alias (hash_of p env cmd.password) env (record w { tx = some w.rows }))
  unfolding store_file pure
  store_file-free free =
      let begun : World = record w { tx = some w.rows } in
      let v : World = record w { tx = some (w.rows ++ new_row_of ∷ []) } in
      let u : World = full cmd.file alias cmd.filename v in
      Post-bind env begun _ _
        (Post-rewrap env begun _ _
          (Returns-of_eq _ _ _ (add_file_tx-calm p env calm begun w.rows refl _ free)))
        (λ _ _ q. rw q.1 (
          Post-bind env v _ _
            (Post-rewrap env v _ _
              (Returns-of_eq _ _ _ (upload-calm env calm v cmd.file alias cmd.filename)))
            (λ _ _ r. rw r.1 (
              Post-bind env u _ _
                (Post-rewrap env u _ _ (
                  Returns-of_eq _ _ _
                    (commit_work-calm p env calm u (w.rows ++ new_row_of ∷ []) refl)))
                (λ _ _ c. record {
                  holds = rw c.1 record {
                    name = refl;
                    fresh = free;
                    rows = refl;
                    tx = refl;
                    handles = refl;
                    folder = full-uploaded cmd.file alias cmd.filename v;
                    others = (full-FolderOnly cmd.file alias cmd.filename v).others;
                  };
                })
                (λ _ _ e. e)))
            (λ _ _ e. e)))
        (λ _ _ e. e)

  -- Nothing has changed, and the alias has a row.
  abbrev Taken : World → Type 0
  Taken x = Same w x × (row_at p alias w.rows ≢ none)

  store_file-Taken :
      row_at p alias w.rows ≢ none
      → Post
          (λ a x. Stores a x)
          (λ _ x. Taken x)
          (store_file p cmd alias (hash_of p env cmd.password) env (record w { tx = some w.rows }))
  unfolding store_file
  store_file-Taken taken =
      let begun : World = record w { tx = some w.rows } in
      Post-bind env begun _ _
        (Post-rewrap env begun _ _ (add_file_tx-Post p _ env begun w.rows refl))
        (λ _ _ q. absurd (taken q.0))
        (λ _ _ t. (record { rows = t.rows; folders = t.folders }, taken))

  store_file-calm :
      Post
        (λ a x. Stores a x)
        (λ _ x. Taken x)
        (store_file p cmd alias (hash_of p env cmd.password) env (record w { tx = some w.rows }))
  store_file-calm = elim (Option-cases (row_at p alias w.rows)) [
    | inl free ↦ Post-mono _ (λ _ _ q. q) (λ _ _ e. absurd e) (store_file-free free)
    | inr (f, taken) ↦ store_file-Taken (λ free. cc)
  ]

  hash_given-calm : hash_given p cmd.password env w ≡ (ok (hash_of p env cmd.password), w)
  unfolding hash_given
  hash_given-calm = ground (arith, calm hash_password)

  after_quota-calm :
      Post
        (λ a x. Stores a x)
        (λ _ x. Taken x)
        (◌>>=◌
          (hash_given p cmd.password)
          (λ hash.
            on_error (wrap "services.file.Service.UploadFile: failed to upload file") begin
            >> unless_success rolled_back (store_file p cmd alias hash))
          env
          w)
  after_quota-calm =
      Post-bind env w _ _ (Returns-of_eq _ _ _ hash_given-calm)
        (λ hash v q.
          rw (q.0, q.1)
            (Post-bind env w _ _
              (Post-rewrap env w _ _ (Returns-of_eq _ _ _ (begin-calm p env calm w)))
              (λ _ u e. rw e.1 (
                Post-unless_success env _ _ _ (
                  Post-mono _ (λ _ _ h. h)
                    (λ _ _ h. (record { rows = h.0.rows; folders = h.0.folders }, h.1))
                    store_file-calm)))
              (λ _ _ e. absurd e)))
        (λ _ _ e. absurd e)

  module _ (cfg : Permissions) where
    abbrev pub Admitted : Type 0
    Admitted =
        check_upload_quote cfg (stat_of cmd.user.user_id w.rows) cmd.filesize cmd.user.roles ≡ ok tt

    -- UploadFile: the row and its file are there; or nothing has changed, since the quota does not
    -- admit the file or the alias has a row.
    pub upload_file-calm :
        Post
          (λ a x. Stores a x)
          (λ _ x. Same w x × (¬ Admitted ⊎ (row_at p alias w.rows ≢ none)))
          (upload_file p cfg cmd alias env w)
    unfolding upload_file
    upload_file-calm =
        Post-bind env w _ _
          (Post-rewrap env w _ _
            (Returns-of_eq _ _ _ (get_files_stat-calm p env calm w cmd.user.user_id)))
          (λ stat v q.
            rw (q.0, q.1)
              (Post-bind {Q = λ _ u. u ≡ w} env w _ _
                (Post-rewrap {F = λ u. (u ≡ w) × ¬ Admitted} env w _ _
                  (Post-lift env w _ (λ _ _. refl) (λ _ e. (refl, λ good. cc))))
                (λ _ u e.
                  rw e (Post-mono _ (λ _ _ h. h) (λ _ _ h. (h.0, inr h.1)) after_quota-calm))
                (λ _ u e. rw e.0 (Same-refl w, inl e.1))))
          (λ _ _ e. absurd e)

    -- Where no call fails, the quota admits the file and no row has the alias: an upload returns the
    -- alias, and its row stands at the end of the table, which is otherwise as before. The alias's
    -- folder holds what it held, if it was there, and the file with the uploaded content, in place of
    -- one of that name. The other folders and the open handles are as before, and no transaction is
    -- open.
    pub upload_file-Returns :
        Admitted
        → row_at p alias w.rows ≡ none
        → Returns (λ a x. Stores a x) (upload_file p cfg cmd alias env w)
    upload_file-Returns admitted free =
        Post-mono _ (λ _ _ s. s)
          (λ _ _ r. elim r.1 [
            | inl over ↦ absurd (over admitted)
            | inr taken ↦ absurd (taken free)
          ])
          upload_file-calm
