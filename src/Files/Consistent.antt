-- ===== src/Files/Consistent.antt =====
-- Every use case keeps the table valid and leaves no transaction open.
use expire_share_api.Prelude.{
  ℕ, List, [], ◌∷◌, ◌++◌, ◌≡◌, inl, inr, refl, none, true, String, ltb_ℤ, pos,
}
use expire_share_api.Domain.{
  File, UploadFile, DownloadFile, AliasCommand, GetAllFiles, Permissions, RequestingUserInfo,
}
use expire_share_api.World.{World, Env, Platform, Result, ok, err, pure}
use expire_share_api.World.Post.{Post, Post-bind, Post-rewrap, Post-lift, Post-mono, Post-both}
use expire_share_api.Repo.Table.{row_at, IsValid, append-IsValid, keep-IsValid}
use expire_share_api.Repo.Effects.{get_file_by_alias-Post}
use expire_share_api.Repo.Transactions.{get_files_stat-Post}
use expire_share_api.Repo.Pages.{get_files_by_user_id-Post}
use expire_share_api.Files.{
  upload_file, download_file, delete_file as erase, get_file, get_all_files, get_files_stat,
  check_access,
}
use expire_share_api.Files.Upload.{upload_file-Post, row_of, hash_of}
use expire_share_api.Files.Download.{download_file-Post}
use expire_share_api.Files.Delete.{delete_file-Post}
use expire_share_api.Files.Counting.{download-refines}

-- No transaction is open, and the table is valid.
abbrev pub Consistent : Platform → World → Type 0
Consistent p w = (w.tx ≡ none) × IsValid p w.rows

pub Post-state :
    {A : Type 0} (P : World → Type 0) (x : Result A × World)
    → Post (λ _ w'. P w') (λ _ w'. P w') x
    → P x.1
Post-state P (ok a, w) h = h.holds
Post-state P (err e, w) h = h.holds

-- The use cases that only read.
module _ (p : Platform) (env : Env) (w : World) where
  pub get_file-unchanged : (now : ℕ) (cmd : AliasCommand) → (get_file p now cmd env w).1 ≡ w
  unfolding get_file pure
  get_file-unchanged now cmd =
      Post-state (λ w'. w' ≡ w) _
        (Post-bind env w _ _ (Post-rewrap env w _ _ (get_file_by_alias-Post p cmd.alias env w))
          (λ f x q. rw q.0 (
            Post-bind env w _ _
              (Post-rewrap {F = λ u. u ≡ w} env w _ _ (
                Post-lift env w (check_access f cmd.user.user_id cmd.user.roles) (λ _ e. refl)
                  (λ _ _. refl)))
              (λ _ y e. record { holds = e }) (λ _ y e. e)))
          (λ _ x e. e))

  pub get_all_files-unchanged : (now : ℕ) (cmd : GetAllFiles) → (get_all_files now cmd env w).1 ≡ w
  unfolding get_all_files pure
  get_all_files-unchanged now cmd =
      Post-state (λ w'. w' ≡ w) _
        (Post-bind env w _ _ (Post-rewrap env w _ _ (get_files_by_user_id-Post cmd env w))
          (λ r x q. record { holds = q.0 }) (λ _ x e. e))

  pub get_files_stat-unchanged :
      (cfg : Permissions) (user : RequestingUserInfo) → (get_files_stat cfg user env w).1 ≡ w
  unfolding get_files_stat pure
  get_files_stat-unchanged cfg user =
      Post-state (λ w'. w' ≡ w) _
        (Post-bind env w _ _ (Post-rewrap env w _ _ (get_files_stat-Post user.user_id env w))
          (λ r x q. record { holds = q.0 }) (λ _ x e. e))

module _ (p : Platform) (env : Env) (w : World) (c : Consistent p w) where
  uploaded-IsValid :
      (cfg : Permissions) (cmd : UploadFile) (alias : String) (rows : List File)
      → ltb_ℤ (pos 0) cmd.max_downloads ≡ true
      → row_at p alias w.rows ≡ none
      → rows ≡ w.rows ++ row_of p cmd alias env (hash_of p env cmd.password) ∷ []
      → IsValid p rows
  uploaded-IsValid cfg cmd alias rows d fresh e = rw e (append-IsValid p w.rows _ c.1 d fresh)

  pub upload_file-Consistent :
      (cfg : Permissions) (cmd : UploadFile) (alias : String)
      → ltb_ℤ (pos 0) cmd.max_downloads ≡ true
      → Consistent p (upload_file p cfg cmd alias env w).1
  upload_file-Consistent cfg cmd alias d = Post-state (Consistent p) _ (
      Post-mono _
        (λ a x u. (u.1.closed, uploaded-IsValid cfg cmd alias x.rows d u.1.fresh u.1.rows))
        (λ _ x f. (
          f.1,
          elim f.0.rows [
            | inl e ↦ rw e c.1
            | inr (e, _, fresh) ↦ uploaded-IsValid cfg cmd alias x.rows d fresh e
          ],
        ))
        (upload_file-Post p cfg cmd alias env w c.0))

  pub download_file-Consistent : (cmd : DownloadFile) → Consistent p (download_file p cmd env w).1
  download_file-Consistent cmd = Post-state (Consistent p) _ (
      Post-mono _ (λ _ x h. (h.0, h.1.valid))
        (λ _ x h. (h.0, elim h.1 [ inl e ↦ rw e c.1 | inr s ↦ s.valid ]))
        (Post-both _
          (Post-mono _ (λ _ x d. rw d.state refl) (λ _ x d. d.closed)
            (download_file-Post p cmd env w c.0))
          (download-refines p cmd env w c.1 c.0)))

  pub delete_file-Consistent : (cmd : AliasCommand) → Consistent p (erase p cmd env w).1
  delete_file-Consistent cmd = Post-state (Consistent p) _ (
      Post-mono _ (λ _ x d. rw d.state (refl, keep-IsValid p _ w.rows c.1))
        (λ _ x f. (
          f.1,
          elim f.0.rows [ inl e ↦ rw e c.1 | inr (e, _, _) ↦ rw e (keep-IsValid p _ w.rows c.1) ],
        ))
        (delete_file-Post p cmd env w c.0))

  pub get_file-Consistent :
      (now : ℕ) (cmd : AliasCommand) → Consistent p (get_file p now cmd env w).1
  get_file-Consistent now cmd = rw (get_file-unchanged p env w now cmd) c

  pub get_all_files-Consistent :
      (now : ℕ) (cmd : GetAllFiles) → Consistent p (get_all_files now cmd env w).1
  get_all_files-Consistent now cmd = rw (get_all_files-unchanged p env w now cmd) c

  pub get_files_stat-Consistent :
      (cfg : Permissions) (user : RequestingUserInfo)
      → Consistent p (get_files_stat cfg user env w).1
  get_files_stat-Consistent cfg user = rw (get_files_stat-unchanged p env w cfg user) c
