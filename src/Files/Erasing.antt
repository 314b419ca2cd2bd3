-- ===== src/Files/Erasing.antt =====
-- DeleteFile where no call fails: it returns, with the row and the folder gone.
use expire_share_api.Prelude.{none, some, false, ◌≡◌, refl, arith, keep, length, eqb}
use expire_share_api.Domain.{File, AliasCommand}
use expire_share_api.World.{World, Env, Platform, Call, ok, select_file, delete_file}
use expire_share_api.World.Post.{Post-bind, Post-rewrap, Post-mono, Post-lift, Post-unless_success}
use expire_share_api.Storage.{on_folders, remove_all}
use expire_share_api.Storage.Calm.{delete-calm}
use expire_share_api.Repo.{find_row, is_live}
use expire_share_api.Repo.Calm.{
  begin-calm, get_file_by_alias-calm, commit_work-calm, delete_file_tx-calm,
}
use expire_share_api.Files.{delete_file as erase, erase_file, check_access}
use expire_share_api.Files.Delete.{remaining}
use expire_share_api.Files.Progress.{Returns, Returns-of_eq}

module _ (p : Platform) (cmd : AliasCommand) (env : Env) (calm : (c : Call) → env.fault c ≡ none)
    (w : World)
    (found : eqb (length (keep (is_live p (env.now delete_file) cmd.alias) w.rows)) 0 ≡ false) where
  abbrev Cleared : World → Type 0
  Cleared x =
      (x.rows ≡ remaining p cmd env w)
      × (x.folders ≡ remove_all cmd.alias w.folders)
      × (x.tx ≡ none)

  erase_file-Returns :
      Returns (λ _ x. Cleared x) (erase_file p cmd env (record w { tx = some w.rows }))
  unfolding erase_file
  erase_file-Returns =
      let v : World = record w { tx = some w.rows } in
      let u : World = record w { tx = some (remaining p cmd env w) } in
      let z : World = on_folders (remove_all cmd.alias) u in
      Post-bind env v _ _
        (Post-rewrap env v _ _
          (Returns-of_eq _ _ _ (delete_file_tx-calm p env calm v w.rows refl cmd.alias found)))
        (λ _ x q. rw q.1 (
          Post-bind env u _ _
            (Post-rewrap env u _ _ (Returns-of_eq _ _ _ (delete-calm env calm u cmd.alias)))
            (λ _ y e. rw e.1 (
              Post-mono _ (λ _ t c. rw c.1 (refl, refl, refl)) (λ _ _ e. e)
                (Post-rewrap env z _ _ (
                  Returns-of_eq _ _ _
                    (commit_work-calm p env calm z (remaining p cmd env w) refl)))))
            (λ _ _ e. e)))
        (λ _ _ e. e)

  -- By a caller who may delete the file.
  pub delete_file-Returns :
      (info : File)
      → find_row (is_live p (env.now select_file) cmd.alias) w.rows ≡ some info
      → check_access info cmd.user.user_id cmd.user.roles ≡ ok tt
      → Returns (λ _ x. Cleared x) (erase p cmd env w)
  unfolding erase
  delete_file-Returns info seen allowed =
      Post-bind env w _ _
        (Post-rewrap env w _ _
          (Returns-of_eq _ _ _ (get_file_by_alias-calm p env calm w cmd.alias info seen)))
        (λ _ x q.
          rw (q.0, q.1)
            (Post-bind {Q = λ _ u. u ≡ w} env w _ _
              (Post-rewrap {F = λ _. ⊥} env w _ _
                (Post-lift env w _ (λ _ _. refl) (λ _ e. absurd (ground (arith, allowed)))))
              (λ _ y e. rw e (
                Post-bind env w _ _
                  (Post-rewrap env w _ _ (Returns-of_eq _ _ _ (begin-calm p env calm w)))
                  (λ _ u e. rw e.1 (
                    Post-unless_success env _ _ _
                      (Post-mono _ (λ _ t h. h) (λ _ _ e. e) erase_file-Returns)))
                  (λ _ _ e. e)))
              (λ _ _ e. e)))
        (λ _ _ e. e)
