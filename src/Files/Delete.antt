-- ===== src/Files/Delete.antt =====
-- DeleteFile: what it has done when it returns, and when it fails.
use expire_share_api.Prelude.{none, some, List, not, ◌≡◌, refl, keep}
use expire_share_api.Domain.{File, AliasCommand}
use expire_share_api.World.{World, Env, Platform, ok, select_file, delete_file}
use expire_share_api.World.Post.{
  Post, Post-bind, Post-rewrap, Post-mono, Post-lift, Post-unless_success,
}
use expire_share_api.Storage.{on_folders, remove_all}
use expire_share_api.Storage.Effects.{
  delete-Post, removed-FolderOnly, spared-FolderOnly, FolderOnly-refl,
}
use expire_share_api.Repo.{find_row, is_live}
use expire_share_api.Repo.Effects.{get_file_by_alias-Post, delete_file_tx-Post}
use expire_share_api.Repo.Transactions.{TxOnly-of_tx, begin-Post, commit_work-Post}
use expire_share_api.Files.{delete_file as erase, erase_file, check_access}
use expire_share_api.Files.Outcome.{
  Failed, Failed-refl, Failed-of_TxOnly, Failed-of_FolderOnly, Failed-of_commit, Failed-of_rollback,
}

module _ (p : Platform) (cmd : AliasCommand) (env : Env) (w : World) where
  -- The rows but the live ones of the alias.
  abbrev pub remaining : List File
  remaining = keep (λ f. not (is_live p (env.now delete_file) cmd.alias f)) w.rows

  abbrev cleared : World
  cleared = record w { rows = remaining; tx = none; folders = remove_all cmd.alias w.folders }

  erase_file-Post :
      Post
        (λ _ x. x ≡ cleared)
        (λ _ x. Failed remaining Unit cmd.alias env w x)
        (erase_file p cmd env (record w { tx = some w.rows }))
  unfolding erase_file
  erase_file-Post =
      let v : World = record w { tx = some w.rows } in
      let u : World = record w { tx = some remaining } in
      let z : World = on_folders (remove_all cmd.alias) u in
      Post-bind env v _ _
        (Post-rewrap env v _ _ (delete_file_tx-Post p cmd.alias env v w.rows refl))
        (λ _ x q. rw q.1 (
          Post-bind env u _ _ (Post-rewrap env u _ _ (delete-Post cmd.alias env u))
            (λ _ y e. rw e (
              Post-mono _ (λ _ t c. c)
                (λ _ t c.
                  Failed-of_commit remaining Unit cmd.alias env w tt
                    (removed-FolderOnly cmd.alias u u (FolderOnly-refl cmd.alias u)) c)
                (Post-rewrap env z _ _ (commit_work-Post env z remaining refl))))
            (λ _ y e. rw e.0 (
              Failed-of_FolderOnly remaining Unit cmd.alias env w
                (spared-FolderOnly _ cmd.alias u u (FolderOnly-refl cmd.alias u))))))
        (λ _ x t. Failed-of_TxOnly remaining Unit cmd.alias env w (TxOnly-of_tx w t))

  -- A deletion that returns: the row that was found, and the right of the caller to delete it.
  pub record Deletes (w' : World) : Type 0 where
    pub info : File
    pub seen : find_row (is_live p (env.now select_file) cmd.alias) w.rows ≡ some info
    pub allowed : check_access info cmd.user.user_id cmd.user.roles ≡ ok tt
    pub state :
        w' ≡ record w { rows = remaining; tx = none; folders = remove_all cmd.alias w.folders }

  -- In a state with no transaction open: a deletion that returns was made by an owner or an admin of
  -- a live file, and has removed exactly its row and its folder. One that fails leaves the table,
  -- unless the server applied a commit that it reported as failed, and the folders of the other
  -- aliases. No transaction stays open.
  pub delete_file-Post :
      w.tx ≡ none
      → Post
          (λ _ w'. Deletes w')
          (λ _ w'. Failed remaining Unit cmd.alias env w w' × (w'.tx ≡ none))
          (erase p cmd env w)
  unfolding erase
  delete_file-Post idle =
      Post-bind env w _ _ (Post-rewrap env w _ _ (get_file_by_alias-Post p cmd.alias env w))
        (λ info x q. rw q.0 (
          Post-bind
            {Q = λ _ u. (u ≡ w) × (check_access info cmd.user.user_id cmd.user.roles ≡ ok tt)} env w
            _ _
            (Post-rewrap {F = λ u. u ≡ w} env w _ _
              (Post-lift env w _ (λ _ e. (refl, e)) (λ _ _. refl)))
            (λ _ y a. rw a.0 (
              Post-bind env w _ _ (Post-rewrap env w _ _ (begin-Post env w))
                (λ _ u e. rw e (
                  Post-unless_success env _ _ _ (
                    Post-mono _
                      (λ _ t h. record { info = info; seen = q.1; allowed = a.1; state = h })
                      (λ _ t h. (Failed-of_rollback remaining Unit cmd.alias env w h, refl))
                      erase_file-Post)))
                (λ _ u e. rw e (Failed-refl remaining Unit cmd.alias env w, idle))))
            (λ _ y e. rw e (Failed-refl remaining Unit cmd.alias env w, idle))))
        (λ _ x e. rw e (Failed-refl remaining Unit cmd.alias env w, idle))
