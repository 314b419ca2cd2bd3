-- ===== src/Files/Counted.antt =====
-- DownloadFile once the file is open: the counter goes down, and what a failure leaves.
use expire_share_api.Files.Settled.{
  has_more, settled, counted, lowered, after, counting, Gone, Settles,
}
use expire_share_api.Prelude.{
  some, List, Bool, true, false, ◌≡◌, refl, ℤ, pred_int16, is_zero, if◌then◌else◌,
}
use expire_share_api.Domain.{File, DownloadFile}
use expire_share_api.World.{World, Env, Platform, pure}
use expire_share_api.World.Post.{Post, Post-bind, Post-rewrap, Post-mono}
use expire_share_api.Storage.{Opened, on_folders, remove_all}
use expire_share_api.Storage.Effects.{
  delete-Post, removed-FolderOnly, spared-FolderOnly, FolderOnly-refl,
}
use expire_share_api.Repo.Effects.{decrement-Post, delete_file_tx-Post}
use expire_share_api.Repo.Transactions.{TxOnly-of_tx, commit_work-Post}
use expire_share_api.Files.{count_download, keep_file, drop_file}
use expire_share_api.Files.Outcome.{
  Failed, Failed-of_TxOnly, Failed-of_FolderOnly, Failed-of_commit,
}

module _ (p : Platform) (cmd : DownloadFile) (env : Env) where
  keep_file-Post :
      (opened : Opened) (left : ℤ) (w : World) (rows : List File)
      → Post
          (λ o x.
            (o ≡ opened) × Gone p cmd env true left rows × (x ≡ after p cmd env true left rows w))
          (λ _ x.
            Failed
              (settled p cmd env true left rows)
              (Gone p cmd env true left rows)
              cmd.alias
              env
              w
              x)
          (keep_file opened env (counting p cmd env left rows w))
  unfolding keep_file pure
  keep_file-Post opened left w rows =
      let v : World = counting p cmd env left rows w in
      Post-bind env v _ _
        (Post-rewrap env v _ _ (commit_work-Post env v (settled p cmd env true left rows) refl))
        (λ _ x e. record { holds = (refl, tt, e) })
        (λ _ x e.
          Failed-of_commit (settled p cmd env true left rows) Unit cmd.alias env w tt
            (FolderOnly-refl cmd.alias v) e)

  drop_file-Post :
      (opened : Opened) (left : ℤ) (w : World) (rows : List File)
      → Post
          (λ o x.
            (o ≡ opened) × Gone p cmd env false left rows × (x ≡ after p cmd env false left rows w))
          (λ _ x.
            Failed
              (settled p cmd env false left rows)
              (Gone p cmd env false left rows)
              cmd.alias
              env
              w
              x)
          (drop_file p cmd opened env (counting p cmd env left rows w))
  unfolding drop_file pure
  drop_file-Post opened left w rows =
      let new : List File = settled p cmd env false left rows in
      let v : World = counting p cmd env left rows w in
      let u : World = record w { tx = some new } in
      Post-bind env v _ _ (Post-rewrap env v _ _ (delete_file_tx-Post p cmd.alias env v _ refl))
        (λ _ x q. rw q.1 (
          Post-bind env u _ _ (Post-rewrap env u _ _ (delete-Post cmd.alias env u))
            (λ _ y e. rw e (
              let z : World = on_folders (remove_all cmd.alias) u in
              Post-bind env z _ _ (Post-rewrap env z _ _ (commit_work-Post env z new refl))
                (λ _ t c. record { holds = (refl, q.0, c) })
                (λ _ t c.
                  Failed-of_commit new (Gone p cmd env false left rows) cmd.alias env w q.0
                    (removed-FolderOnly cmd.alias u u (FolderOnly-refl cmd.alias u)) c)))
            (λ _ y e. rw e.0 (
              Failed-of_FolderOnly new (Gone p cmd env false left rows) cmd.alias env w
                (spared-FolderOnly _ cmd.alias u u (FolderOnly-refl cmd.alias u))))))
        (λ _ x t.
          Failed-of_TxOnly new (Gone p cmd env false left rows) cmd.alias env w (TxOnly-of_tx w t))

  choose-Post :
      (more : Bool) (opened : Opened) (left : ℤ) (w : World) (rows : List File)
      → Post
          (λ o x.
            (o ≡ opened) × Gone p cmd env more left rows × (x ≡ after p cmd env more left rows w))
          (λ _ x.
            Failed
              (settled p cmd env more left rows)
              (Gone p cmd env more left rows)
              cmd.alias
              env
              w
              x)
          ((if more then keep_file opened else drop_file p cmd opened) env
            (counting p cmd env left rows w))
  choose-Post true opened left w rows = keep_file-Post opened left w rows
  choose-Post false opened left w rows = drop_file-Post opened left w rows

  -- The row that the counter came from, and the state after it went down by one.
  pub record Counts (opened : Opened) (w : World) (o : Opened) (x : World) : Type 0 where
    pub row : File
    pub found : counted p cmd env w.rows ≡ some row
    pub nonzero : is_zero row.downloads_left ≡ false
    pub same : o ≡ opened
    pub gone :
        Gone p cmd env
          (has_more (pred_int16 row.downloads_left))
          (pred_int16 row.downloads_left)
          w.rows
    pub state :
        x
        ≡ after p cmd env
            (has_more (pred_int16 row.downloads_left))
            (pred_int16 row.downloads_left)
            w.rows
            w

  pub count_download-Post :
      (opened : Opened) (w : World)
      → Post
          (Counts opened w)
          (λ _ x. Failed (lowered p cmd env w.rows) (Settles p cmd env w.rows) cmd.alias env w x)
          (count_download p cmd opened env (record w { tx = some w.rows }))
  unfolding count_download
  count_download-Post opened w =
      let v : World = record w { tx = some w.rows } in
      Post-bind env v _ _ (Post-rewrap env v _ _ (decrement-Post p cmd.alias env v w.rows refl))
        (λ left x d.
          rw (d.written, d.lowered)
            (Post-mono _
              (λ o y h. record {
                row = d.row;
                found = d.found;
                nonzero = d.nonzero;
                same = h.0;
                gone = h.1;
                state = h.2;
              })
              (λ _ y h. rw d.found h)
              (choose-Post (has_more (pred_int16 d.row.downloads_left)) opened
                (pred_int16 d.row.downloads_left) w w.rows)))
        (λ _ x t.
          Failed-of_TxOnly (lowered p cmd env w.rows) (Settles p cmd env w.rows) cmd.alias env w
            (TxOnly-of_tx w t))
