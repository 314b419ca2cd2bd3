-- ===== src/Files/Download.antt =====
-- DownloadFile: what it has done when it returns an open file, and when it fails.
use expire_share_api.Files.Counted.{count_download-Post}
use expire_share_api.Files.Settled.{has_more, counted, lowered, after, Gone, Settles}
use expire_share_api.Prelude.{
  ◌+◌, ◌-◌, String, none, some, List, ◌∷◌, true, false, ◌≡◌, ◌≢◌, ◌⊎◌, inl, inr, refl, ap, arith,
  pred_int16, is_zero,
}
use expire_share_api.Domain.{File, DownloadFile}
use expire_share_api.World.{World, Env, Platform, ok, select_file, entry_info, close_file, Stored}
use expire_share_api.World.Post.{
  Post, Post-bind, Post-rewrap, Post-mono, Post-lift, Post-unless_success,
}
use expire_share_api.Storage.{Opened, entries}
use expire_share_api.Storage.Effects.{Leaked, download-Post}
use expire_share_api.Repo.{find_row, is_live}
use expire_share_api.Repo.Effects.{get_file_by_alias-Post}
use expire_share_api.Repo.Transactions.{begin-Post}
use expire_share_api.Files.{download_file, closed_and_rolled_back, check_password}
use expire_share_api.Files.Outcome.{Failed}

module _ (p : Platform) (cmd : DownloadFile) (env : Env) where
  -- A download that returns: the row whose password was tested, the file that was opened, and the
  -- row that was counted down.
  pub record Downloads (w : World) (o : Opened) (w' : World) : Type 0 where
    pub info : File
    pub seen : find_row (is_live p (env.now select_file) cmd.alias) w.rows ≡ some info
    pub allowed : check_password p info cmd.password ≡ ok tt
    pub more : List Stored
    pub listing : entries cmd.alias w.folders ≡ some (o.entry ∷ more)
    pub row : File
    pub found : counted p cmd env w.rows ≡ some row
    pub nonzero : is_zero row.downloads_left ≡ false
    pub gone :
        Gone p cmd env
          (has_more (pred_int16 row.downloads_left))
          (pred_int16 row.downloads_left)
          w.rows
    pub state :
        w'
        ≡ record (after p cmd env
            (has_more (pred_int16 row.downloads_left))
            (pred_int16 row.downloads_left)
            w.rows
            w) { open_files = w.open_files + 1 }

  -- A failed download: the table, the other folders and the transaction as in `Failed`; the handle
  -- of the file is closed again, unless the file's `Info` failed.
  pub record DownloadFailed (w w' : World) : Type 0 where
    pub rows :
        (w'.rows ≡ w.rows)
        ⊎ ((w'.rows ≡ lowered p cmd env w.rows)
            × (env.commit_applied ≡ true)
            × Settles p cmd env w.rows)
    pub others : (a : String) → cmd.alias ≢ a → entries a w'.folders ≡ entries a w.folders
    pub closed : w'.tx ≡ none
    pub handles :
        (w'.open_files ≡ w.open_files)
        ⊎ ((w'.open_files ≡ w.open_files + 1) × (env.fault entry_info ≢ none))

  module _ (w : World) (idle : w.tx ≡ none) where
    DownloadFailed-refl : DownloadFailed w w
    DownloadFailed-refl = record {
      rows = inl refl;
      others = λ a ne. refl;
      closed = idle;
      handles = inl refl;
    }

    DownloadFailed-of_Leaked : (v : World) → Leaked env w v → DownloadFailed w v
    DownloadFailed-of_Leaked v (inl e) = rw e DownloadFailed-refl
    DownloadFailed-of_Leaked v (inr (e, f)) =
        rw e
          record { rows = inl refl; others = λ a ne. refl; closed = idle; handles = inr (refl, f) }

    DownloadFailed-of_Failed :
        (v : World)
        → Failed
            (lowered p cmd env w.rows)
            (Settles p cmd env w.rows)
            cmd.alias
            env
            (record w { open_files = w.open_files + 1 })
            v
        → DownloadFailed w (closed_and_rolled_back v)
    DownloadFailed-of_Failed v h = record {
      rows = h.rows;
      others = h.others;
      closed = refl;
      handles = inl (omega (arith, h.handles));
    }

closed_again : (w : World) → record w { open_files = w.open_files + 1 - 1 } ≡ w
closed_again w = ap (λ n. let v : World = record w { open_files = n } in v) (omega arith)

-- In a state with no transaction open: a download that returns has tested the password, opened the
-- file, and taken one from the counter of the row, which is deleted with its folder when no
-- download is left; one handle more is open. A download that fails leaves the table, unless the
-- server applied a commit that it reported as failed, and closes the handle, unless the file's
-- `Info` failed. No transaction stays open, and the folders of the other aliases stay.
pub download_file-Post :
    (p : Platform) (cmd : DownloadFile) (env : Env) (w : World)
    → w.tx ≡ none
    → Post
        (Downloads p cmd env w)
        (λ _ w'. DownloadFailed p cmd env w w')
        (download_file p cmd env w)
unfolding download_file
download_file-Post p cmd env w idle =
    let same = DownloadFailed-refl p cmd env w idle in
    let v : World = record w { open_files = w.open_files + 1 } in
    Post-bind env w _ _ (Post-rewrap env w _ _ (get_file_by_alias-Post p cmd.alias env w))
      (λ info x q. rw q.0 (
        Post-bind {Q = λ _ u. (u ≡ w) × (check_password p info cmd.password ≡ ok tt)} env w _ _
          (Post-rewrap {F = λ u. u ≡ w} env w _ _
            (Post-lift env w _ (λ _ e. (refl, e)) (λ _ _. refl)))
          (λ _ y a. rw a.0 (
            Post-bind env w _ _ (Post-rewrap env w _ _ (download-Post cmd.alias env w))
              (λ o z d. rw d.opened (
                Post-bind {Q = λ _ u. u ≡ record v { tx = some w.rows }} {E = λ _ u. u ≡ w} env v _
                  _
                  (Post-unless_success env v _ _ (
                    Post-rewrap {F = λ u. close_file u ≡ w} env v _ _ (
                      Post-mono _ (λ _ u e. e) (λ _ u e. rw e (closed_again w))
                        (begin-Post env v))))
                  (λ _ u e. rw e (
                    Post-unless_success env _ _ _ (
                      Post-mono _
                        (λ r t c. record {
                          info = info;
                          seen = q.1;
                          allowed = a.1;
                          more = d.more;
                          listing = rw c.same d.listing;
                          row = c.row;
                          found = c.found;
                          nonzero = c.nonzero;
                          gone = c.gone;
                          state = c.state;
                        })
                        (λ _ t h. DownloadFailed-of_Failed p cmd env w idle t h)
                        (count_download-Post p cmd env o v))))
                  (λ _ u e. rw e same)))
              (λ _ z l. DownloadFailed-of_Leaked p cmd env w idle z l)))
          (λ _ y e. rw e same)))
      (λ _ x e. rw e same)
