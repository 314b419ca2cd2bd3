-- ===== src/Files/Atomic.antt =====
-- A change of the table and of the folders that is made whole or not at all, where a commit that
-- reports an error has been applied and the folder's removal does not break off.
use expire_share_api.Prelude.{
  ◌<◌, ◌+◌, ◌∙◌, ap, none, some, Bool, true, false, ◌≡◌, ◌⊎◌, inl, inr, refl, keep, length,
  if◌then◌else◌, ℤ, pred_int16,
}
use expire_share_api.Domain.{File, AliasCommand, DownloadFile}
use expire_share_api.World.{
  World, Env, Platform, delete_file, remove_folder, pure, rolled_back, close_file,
}
use expire_share_api.World.Post.{
  Post, Post-bind, Post-rewrap, Post-mono, Post-lift, Post-unless_success,
}
use expire_share_api.Storage.{Opened, on_folders, remove_all}
use expire_share_api.Storage.Effects.{Leaked, delete-Post, download-Post}
use expire_share_api.Repo.{is_live, set_downloads, same_alias}
use expire_share_api.Repo.Effects.{get_file_by_alias-Post, delete_file_tx-Post, decrement-Post}
use expire_share_api.Repo.Transactions.{TxOnly, begin-Post, Applies, commit_work-Applies}
use expire_share_api.Files.{
  delete_file as erase, erase_file, check_access, download_file, count_download, keep_file,
  drop_file, closed_and_rolled_back, check_password,
}
use expire_share_api.Files.Delete.{remaining}
use expire_share_api.Files.Settled.{settled, settled_folders, Gone, has_more, counted, counting}

-- The table and the folders, as they were.
pub record Same (w w' : World) : Type 0 where
  pub rows : w'.rows ≡ w.rows
  pub folders : w'.folders ≡ w.folders

pub Same-refl : (w : World) → Same w w
Same-refl w = record { rows = refl; folders = refl }

Same-of_TxOnly : {w u : World} → TxOnly w u → Same w u
Same-of_TxOnly t = record { rows = t.rows; folders = t.folders }

pub Same-of_eq : {w u : World} → u ≡ w → Same w u
Same-of_eq e = rw e (Same-refl _)

module _ (p : Platform) (cmd : AliasCommand) (env : Env) (a : Applies env)
    (clean : env.fault (remove_folder cmd.alias) ≡ none) (w : World) where
  -- The live row of the alias is gone, and its folder.
  pub record Erased (x : World) : Type 0 where
    pub found : 0 < length (keep (is_live p (env.now delete_file) cmd.alias) w.rows)
    pub rows : x.rows ≡ remaining p cmd env w
    pub folders : x.folders ≡ remove_all cmd.alias w.folders

  erase_file-Whole :
      Post
        (λ _ x. Erased x)
        (λ _ x. Same w x ⊎ Erased x)
        (erase_file p cmd env (record w { tx = some w.rows }))
  unfolding erase_file
  erase_file-Whole =
      let v : World = record w { tx = some w.rows } in
      let u : World = record w { tx = some (remaining p cmd env w) } in
      let z : World = on_folders (remove_all cmd.alias) u in
      Post-bind env v _ _
        (Post-rewrap env v _ _ (delete_file_tx-Post p cmd.alias env v w.rows refl))
        (λ _ x q. rw q.1 (
          Post-bind env u _ _ (Post-rewrap env u _ _ (delete-Post cmd.alias env u))
            (λ _ y e. rw e (
              Post-rewrap {F = λ t. Same w t ⊎ Erased t} env z _ _ (
                Post-mono _ (λ _ t c. rw c record { found = q.0; rows = refl; folders = refl })
                  (λ _ t c. inr (rw c record { found = q.0; rows = refl; folders = refl }))
                  (commit_work-Applies env z (remaining p cmd env w) a refl))))
            (λ _ y e. absurd (e.1 clean))))
        (λ _ x t. inl record { rows = t.rows; folders = t.folders })

  -- DeleteFile.
  pub delete_file-Whole : Post (λ _ x. Erased x) (λ _ x. Same w x ⊎ Erased x) (erase p cmd env w)
  unfolding erase
  delete_file-Whole =
      Post-bind env w _ _ (Post-rewrap env w _ _ (get_file_by_alias-Post p cmd.alias env w))
        (λ info x q. rw q.0 (
          Post-bind {Q = λ _ u. u ≡ w} env w _ _
            (Post-rewrap {F = λ u. u ≡ w} env w _ _ (
              Post-lift env w (check_access info cmd.user.user_id cmd.user.roles) (λ _ _. refl)
                (λ _ _. refl)))
            (λ _ y e. rw e (
              Post-bind env w _ _ (Post-rewrap env w _ _ (begin-Post env w))
                (λ _ u e. rw e (
                  Post-unless_success env _ _ _
                    (Post-mono _ (λ _ t h. h) (λ _ t h. undone t h) erase_file-Whole)))
                (λ _ u e. inl (Same-of_eq e))))
            (λ _ y e. inl (Same-of_eq e))))
        (λ _ x e. inl (Same-of_eq e))
    where
      undone : (t : World) → Same w t ⊎ Erased t → Same w (rolled_back t) ⊎ Erased (rolled_back t)
      undone t (inl h) = inl record { rows = h.rows; folders = h.folders }
      undone t (inr h) = inr record { found = h.found; rows = h.rows; folders = h.folders }

module _ (p : Platform) (cmd : DownloadFile) (env : Env) (a : Applies env)
    (clean : env.fault (remove_folder cmd.alias) ≡ none) (w : World) where
  -- What a download does at a count of `left`: the counter is written, or row and folder are gone.
  record Settled (more : Bool) (left : ℤ) (x : World) : Type 0 where
    gone : Gone p cmd env more left w.rows
    rows : x.rows ≡ settled p cmd env more left w.rows
    folders : x.folders ≡ settled_folders p cmd env more w.folders

  -- The row that the counter was read from, and what became of table and folders.
  pub record Drawn (x : World) : Type 0 where
    pub row : File
    pub found : counted p cmd env w.rows ≡ some row
    pub gone :
        Gone p cmd env
          (has_more (pred_int16 row.downloads_left))
          (pred_int16 row.downloads_left)
          w.rows
    pub rows :
        x.rows
        ≡ settled p cmd env
            (has_more (pred_int16 row.downloads_left))
            (pred_int16 row.downloads_left)
            w.rows
    pub folders :
        x.folders ≡ settled_folders p cmd env (has_more (pred_int16 row.downloads_left)) w.folders

  keep_file-Settled :
      (o : Opened) (left : ℤ) (v : World)
      → Same w v
      → Post
          (λ _ x. Settled true left x)
          (λ _ x. Same w x ⊎ Settled true left x)
          (keep_file o env (counting p cmd env left w.rows v))
  unfolding keep_file pure
  keep_file-Settled o left v s =
      let u : World = counting p cmd env left w.rows v in
      let new = settled p cmd env true left w.rows in
      let done : (t : World) → t ≡ record u { rows = new; tx = none } → Settled true left t =
        λ t c. rw c record { gone = tt; rows = refl; folders = s.folders } in
      Post-bind env u _ _ (Post-rewrap env u _ _ (commit_work-Applies env u new a refl))
        (λ _ t c. record { holds = done t c }) (λ _ t c. inr (done t c))

  drop_file-Settled :
      (o : Opened) (left : ℤ) (v : World)
      → Same w v
      → Post
          (λ _ x. Settled false left x)
          (λ _ x. Same w x ⊎ Settled false left x)
          (drop_file p cmd o env (counting p cmd env left w.rows v))
  unfolding drop_file pure
  drop_file-Settled o left v s =
      let u : World = counting p cmd env left w.rows v in
      let new = settled p cmd env false left w.rows in
      let y : World = record v { tx = some new } in
      let z : World = on_folders (remove_all cmd.alias) y in
      let done : (t : World)
          → 0
            < length (
                keep (is_live p (env.now delete_file) cmd.alias)
                  (set_downloads (same_alias p cmd.alias) left w.rows))
          → t ≡ record z { rows = new; tx = none }
          → Settled false left t =
        λ t g c.
          rw c record { gone = g; rows = refl; folders = ap (remove_all cmd.alias) s.folders } in
      Post-bind env u _ _ (Post-rewrap env u _ _ (delete_file_tx-Post p cmd.alias env u _ refl))
        (λ _ x q. rw q.1 (
          Post-bind env y _ _ (Post-rewrap env y _ _ (delete-Post cmd.alias env y))
            (λ _ _ e. rw e (
              Post-bind env z _ _ (Post-rewrap env z _ _ (commit_work-Applies env z new a refl))
                (λ _ t c. record { holds = done t q.0 c }) (λ _ t c. inr (done t q.0 c))))
            (λ _ _ e. absurd (e.1 clean))))
        (λ _ x t. inl record { rows = t.rows ∙ s.rows; folders = t.folders ∙ s.folders })

  choose-Settled :
      (more : Bool) (o : Opened) (left : ℤ) (v : World)
      → Same w v
      → Post
          (λ _ x. Settled more left x)
          (λ _ x. Same w x ⊎ Settled more left x)
          ((if more then keep_file o else drop_file p cmd o) env (counting p cmd env left w.rows v))
  choose-Settled true o left v s = keep_file-Settled o left v s
  choose-Settled false o left v s = drop_file-Settled o left v s

  count_download-Drawn :
      (o : Opened) (v : World)
      → Same w v
      → v.tx ≡ some w.rows
      → Post (λ _ x. Drawn x) (λ _ x. Same w x ⊎ Drawn x) (count_download p cmd o env v)
  unfolding count_download
  count_download-Drawn o v s t =
      Post-bind env v _ _ (Post-rewrap env v _ _ (decrement-Post p cmd.alias env v w.rows t))
        (λ left x d.
          let drawn : (x : World) → Settled (has_more left) left x → Drawn x = λ x h. record {
            row = d.row;
            found = d.found;
            gone = rw (← d.lowered) h.gone;
            rows = rw (← d.lowered) h.rows;
            folders = rw (← d.lowered) h.folders;
          } in
          rw d.written (
            Post-mono _ (λ _ x h. drawn x h)
              (λ _ x h. elim h [ inl e ↦ inl e | inr q ↦ inr (drawn x q) ])
              (choose-Settled (has_more left) o left v s)))
        (λ _ x t. inl record { rows = t.rows ∙ s.rows; folders = t.folders ∙ s.folders })

  undone :
      (x : World)
      → Same w x ⊎ Drawn x
      → Same w (closed_and_rolled_back x) ⊎ Drawn (closed_and_rolled_back x)
  undone x (inl h) = inl record { rows = h.rows; folders = h.folders }
  undone x (inr h) =
      inr record { row = h.row; found = h.found; gone = h.gone; rows = h.rows; folders = h.folders }

  after_leak : (v : World) → Leaked env w v → Same w v
  after_leak v (inl e) = Same-of_eq e
  after_leak v (inr (e, _)) = rw e record { rows = refl; folders = refl }

  -- DownloadFile.
  pub download_file-Whole :
      Post (λ _ x. Drawn x) (λ _ x. Same w x ⊎ Drawn x) (download_file p cmd env w)
  unfolding download_file
  download_file-Whole =
      let v : World = record w { open_files = w.open_files + 1 } in
      let same : Same w v = record { rows = refl; folders = refl } in
      Post-bind env w _ _ (Post-rewrap env w _ _ (get_file_by_alias-Post p cmd.alias env w))
        (λ info x q. rw q.0 (
          Post-bind {Q = λ _ u. u ≡ w} env w _ _
            (Post-rewrap {F = λ u. u ≡ w} env w _ _
              (Post-lift env w (check_password p info cmd.password) (λ _ _. refl) (λ _ _. refl)))
            (λ _ y e. rw e (
              Post-bind env w _ _ (Post-rewrap env w _ _ (download-Post cmd.alias env w))
                (λ o z d. rw d.opened (
                  Post-bind {Q = λ _ u. u ≡ record v { tx = some w.rows }} {E = λ _ u. Same w u} env
                    v _ _
                    (Post-unless_success env v _ _ (
                      Post-rewrap {F = λ u. Same w (close_file u)} env v _ _ (
                        Post-mono _ (λ _ u e. e)
                          (λ _ u e. rw e record { rows = refl; folders = refl })
                          (begin-Post env v))))
                    (λ _ u e. rw e (
                      Post-unless_success env _ _ _ (
                        Post-mono _ (λ _ t h. h) (λ _ t h. undone t h)
                          (count_download-Drawn o (record v { tx = some w.rows })
                            record { rows = refl; folders = refl } refl))))
                    (λ _ u s. inl s)))
                (λ _ z l. inl (after_leak z l))))
            (λ _ y e. inl (Same-of_eq e))))
        (λ _ x e. inl (Same-of_eq e))
