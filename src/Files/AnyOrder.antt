-- ===== src/Files/AnyOrder.antt =====
-- The use cases on a table in any order: what DB hands out first makes no difference to them.
use expire_share_api.Prelude.{
  ℕ, pos, ltb_ℤ, String, Option, List, Bool, true, false, ◌≡◌, refl, sym, ◌∙◌, ap, arith,
  if◌then◌else◌, ◌==◌, Option-cases, Bool-cases, inl, inr,
}
use expire_share_api.Domain.{
  File, UploadFile, DownloadFile, AliasCommand, RequestingUserInfo, Permissions, wrap,
}
use expire_share_api.World.{World, Env, Platform, Result, ok, err, Action, hash_password, error_of}
use expire_share_api.Storage.{Opened, upload, download, delete}
use expire_share_api.Storage.Frame.{
  with_tables, framed, upload-framed, download-framed, delete-framed,
}
use expire_share_api.Repo.Uniform.{
  Same, Agree, Agree-of, Uniform, Uniform-bind, Uniform-pure, Uniform-lift, Uniform-on_error,
  Uniform-unless_success, Same-rolled_back, Same-close_file,
}
use expire_share_api.Repo.Statements.{Uniform-begin, Uniform-commit_work}
use expire_share_api.Repo.AnyOrder.{
  Uniform-get_file_by_alias, Uniform-get_files_stat, Uniform-add_file_tx, Uniform-decrement,
  Uniform-delete_file_tx,
}
use expire_share_api.Files.{
  upload_file, download_file, delete_file, get_file, get_files_stat, store_file, hash_given,
  count_download, keep_file, drop_file, erase_file,
}

module _ (p : Platform) where
  retabled : (w w' : World) → Same p w w' → with_tables w'.rows w'.tx w ≡ w'
  retabled w w' s = ground (arith, s.folders, s.open_files)

  Uniform-of_framed :
      {A : Type 0} (m : Action A)
      → ((rows : List File) (tx : Option (List File)) (env : Env) (w : World)
          → m env (with_tables rows tx w) ≡ framed rows tx (m env w))
      → Uniform p m
  Uniform-of_framed m h env w w' s =
      Agree-of p (framed w.rows w.tx (m env w)) (framed w'.rows w'.tx (m env w))
        (h w.rows w.tx env w) (ap (m env) (sym (retabled w w' s)) ∙ h w'.rows w'.tx env w)
        (record {
          value = refl;
          state = record { rows = s.rows; tx = s.tx; folders = refl; open_files = refl };
        })

  Uniform-hash_given : (password : String) → Uniform p (hash_given p password)
  unfolding hash_given
  Uniform-hash_given password env w w' s = elim (Bool-cases (password == "")) [
    | inl e ↦
        Agree-of p (ok "", w) (ok "", w') (ground arith) (ground arith)
          (record { value = refl; state = s })
    | inr e ↦ elim (Option-cases (env.fault hash_password)) [
      | inl n ↦
          Agree-of p (ok (p.bcrypt_generate env.salt password), w)
            (ok (p.bcrypt_generate env.salt password), w') (ground arith) (ground arith)
            (record { value = refl; state = s })
      | inr (x, n) ↦
          let failed : World → Result String × World = λ u. (
            err (wrap "services.file.Service.UploadFile: failed to hash password" (error_of x)),
            u,
          ) in
          Agree-of p (failed w) (failed w') (ground arith) (ground arith)
            (record { value = refl; state = s })
    ]
  ]

  Uniform-store_file :
      (cmd : UploadFile) (alias hash : String) → Uniform p (store_file p cmd alias hash)
  unfolding store_file
  Uniform-store_file cmd alias hash =
      Uniform-bind p (Uniform-on_error p _ (Uniform-add_file_tx p _)) (λ _.
        Uniform-bind p
          (Uniform-on_error p _ (
            Uniform-of_framed (upload cmd.file alias cmd.filename)
              (λ r t. upload-framed r t cmd.file alias cmd.filename)))
          (λ _.
            Uniform-bind p (Uniform-on_error p _ (Uniform-commit_work p))
              (λ _. Uniform-pure p alias)))

  Uniform-upload_file :
      (cfg : Permissions) (cmd : UploadFile) (alias : String)
      → Uniform p (upload_file p cfg cmd alias)
  unfolding upload_file
  Uniform-upload_file cfg cmd alias =
      Uniform-bind p (Uniform-on_error p _ (Uniform-get_files_stat p _)) (λ stat.
        Uniform-bind p (Uniform-on_error p _ (Uniform-lift p _)) (λ _.
          Uniform-bind p (Uniform-hash_given cmd.password) (λ hash.
            Uniform-bind p (Uniform-on_error p _ (Uniform-begin p)) (λ _.
              Uniform-unless_success p _ (Same-rolled_back p)
                (Uniform-store_file cmd alias hash)))))

  Uniform-keep_file : (o : Opened) → Uniform p (keep_file o)
  unfolding keep_file
  Uniform-keep_file o =
      Uniform-bind p (Uniform-on_error p _ (Uniform-commit_work p)) (λ _. Uniform-pure p o)

  Uniform-delete : (a : String) → Uniform p (delete a)
  Uniform-delete a = Uniform-of_framed (delete a) (λ r t. delete-framed r t a)

  Uniform-drop_file : (cmd : DownloadFile) (o : Opened) → Uniform p (drop_file p cmd o)
  unfolding drop_file
  Uniform-drop_file cmd o = Uniform-bind p (Uniform-on_error p _ (Uniform-delete_file_tx p _)) (λ _.
      Uniform-bind p (Uniform-on_error p _ (Uniform-delete _)) (λ _.
        Uniform-bind p (Uniform-on_error p _ (Uniform-commit_work p)) (λ _. Uniform-pure p o)))

  last_or_not :
      (b : Bool) {m n : Action Opened} → Uniform p m → Uniform p n → Uniform p (if b then m else n)
  last_or_not true h k = h
  last_or_not false h k = k

  Uniform-count_download : (cmd : DownloadFile) (o : Opened) → Uniform p (count_download p cmd o)
  unfolding count_download
  Uniform-count_download cmd o =
      Uniform-bind p (Uniform-on_error p _ (Uniform-decrement p _))
        (λ left. last_or_not (ltb_ℤ (pos 0) left) (Uniform-keep_file o) (Uniform-drop_file cmd o))

  Uniform-download_file : (cmd : DownloadFile) → Uniform p (download_file p cmd)
  unfolding download_file
  Uniform-download_file cmd =
      Uniform-bind p (Uniform-on_error p _ (Uniform-get_file_by_alias p _)) (λ info.
        Uniform-bind p (Uniform-on_error p _ (Uniform-lift p _)) (λ _.
          Uniform-bind p
            (Uniform-on_error p _
              (Uniform-of_framed (download cmd.alias) (λ r t. download-framed r t cmd.alias)))
            (λ o.
              Uniform-bind p
                (Uniform-unless_success p _ (Same-close_file p)
                  (Uniform-on_error p _ (Uniform-begin p)))
                (λ _.
                  Uniform-unless_success p _
                    (λ u u' s. Same-rolled_back p _ _ (Same-close_file p u u' s))
                    (Uniform-count_download cmd o)))))

  Uniform-delete_file : (cmd : AliasCommand) → Uniform p (delete_file p cmd)
  unfolding delete_file erase_file
  Uniform-delete_file cmd =
      Uniform-bind p (Uniform-on_error p _ (Uniform-get_file_by_alias p _)) (λ info.
        Uniform-bind p (Uniform-on_error p _ (Uniform-lift p _)) (λ _.
          Uniform-bind p (Uniform-on_error p _ (Uniform-begin p)) (λ _.
            Uniform-unless_success p _ (Same-rolled_back p) (
              Uniform-bind p (Uniform-on_error p _ (Uniform-delete_file_tx p _)) (λ _.
                Uniform-bind p (Uniform-on_error p _ (Uniform-delete _))
                  (λ _. Uniform-on_error p _ (Uniform-commit_work p)))))))

  Uniform-get_file : (now : ℕ) (cmd : AliasCommand) → Uniform p (get_file p now cmd)
  unfolding get_file
  Uniform-get_file now cmd =
      Uniform-bind p (Uniform-on_error p _ (Uniform-get_file_by_alias p _))
        (λ info. Uniform-bind p (Uniform-on_error p _ (Uniform-lift p _)) (λ _. Uniform-pure p _))

  Uniform-stat :
      (cfg : Permissions) (user : RequestingUserInfo) → Uniform p (get_files_stat cfg user)
  unfolding get_files_stat
  Uniform-stat cfg user =
      Uniform-bind p (Uniform-on_error p _ (Uniform-get_files_stat p _)) (λ _. Uniform-pure p _)

  -- In two states that differ in the order of the rows at most, where no two rows have one alias:
  -- UploadFile, DownloadFile, DeleteFile, GetFileByAlias and GetFilesStat give the same value or
  -- the same error, and leave two states of that kind.
  pub answers_in_any_order :
      (cfg : Permissions) (up : UploadFile) (alias : String) (down : DownloadFile)
      (cmd : AliasCommand) (now : ℕ) (env : Env) (w w' : World)
      → Same p w w'
      → Agree p (upload_file p cfg up alias env w) (upload_file p cfg up alias env w')
        × Agree p (download_file p down env w) (download_file p down env w')
        × Agree p (delete_file p cmd env w) (delete_file p cmd env w')
        × Agree p (get_file p now cmd env w) (get_file p now cmd env w')
        × Agree p (get_files_stat cfg cmd.user env w) (get_files_stat cfg cmd.user env w')
  answers_in_any_order cfg up alias down cmd now env w w' s = (
    Uniform-upload_file cfg up alias env w w' s,
    Uniform-download_file down env w w' s,
    Uniform-delete_file cmd env w w' s,
    Uniform-get_file now cmd env w w' s,
    Uniform-stat cfg cmd.user env w w' s,
  )
