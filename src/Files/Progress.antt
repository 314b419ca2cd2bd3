-- ===== src/Files/Progress.antt =====
-- What DownloadFile returns when no call fails.
use expire_share_api.Prelude.{
  none, some, List, ◌∷◌, Bool, true, false, not, ◌≡◌, refl, arith, pred_int16, is_zero, keep,
  length, eqb, if◌then◌else◌,
}
use expire_share_api.Domain.{File, DownloadFile}
use expire_share_api.World.{
  World, Env, Platform, Call, ok, Stored, select_file, select_downloads, delete_file, pure, Result,
}
use expire_share_api.World.Post.{
  Post, Post-bind, Post-rewrap, Post-mono, Post-lift, Post-unless_success,
}
use expire_share_api.Storage.{Opened, entries}
use expire_share_api.Storage.Calm.{download-calm, delete-calm}
use expire_share_api.Repo.{find_row, is_live, set_downloads, same_alias}
use expire_share_api.Repo.Calm.{
  begin-calm, get_file_by_alias-calm, commit_work-calm, decrement-calm, delete_file_tx-calm,
}
use expire_share_api.Files.{download_file, count_download, keep_file, drop_file, check_password}
use expire_share_api.Files.Settled.{has_more}

-- The action returns, with this value and this state.
abbrev pub Returns : {A : Type 0} → (A → World → Type 0) → Result A × World → Type 0
Returns Q x = Post Q (λ _ _. ⊥) x

pub Returns-of_eq :
    {A : Type 0} (x : Result A × World) (a : A) (u : World)
    → x ≡ (ok a, u)
    → Returns (λ b v. (b ≡ a) × (v ≡ u)) x
Returns-of_eq x a u h = rw h (record { holds = (refl, refl) })

module _ (p : Platform) (cmd : DownloadFile) (env : Env)
    (calm : (c : Call) → env.fault c ≡ none) where
  keep_file-Returns :
      (o : Opened) (rows : List File) (w : World)
      → w.tx ≡ some rows
      → Returns (λ b _. b ≡ o) (keep_file o env w)
  unfolding keep_file pure
  keep_file-Returns o rows w t =
      Post-bind env w _ _
        (Post-rewrap env w _ _ (Returns-of_eq _ _ _ (commit_work-calm p env calm w rows t)))
        (λ _ v q. record { holds = refl }) (λ _ v e. e)

  drop_file-Returns :
      (o : Opened) (rows : List File) (w : World)
      → w.tx ≡ some rows
      → eqb (length (keep (is_live p (env.now delete_file) cmd.alias) rows)) 0 ≡ false
      → Returns (λ b _. b ≡ o) (drop_file p cmd o env w)
  unfolding drop_file pure
  drop_file-Returns o rows w t n =
      Post-bind env w _ _
        (Post-rewrap env w _ _
          (Returns-of_eq _ _ _ (delete_file_tx-calm p env calm w rows t cmd.alias n)))
        (λ _ v q.
          Post-bind env v _ _
            (Post-rewrap env v _ _ (Returns-of_eq _ _ _ (delete-calm env calm v cmd.alias)))
            (λ _ u r.
              Post-bind env u _ _
                (Post-rewrap env u _ _ (
                  Returns-of_eq _ _ _ (
                    commit_work-calm p env calm u
                      (keep (λ g. not (is_live p (env.now delete_file) cmd.alias g)) rows)
                      (rw (r.1, q.1) refl))))
                (λ _ x s. record { holds = refl }) (λ _ x e. e))
            (λ _ u e. e))
        (λ _ v e. e)

  -- The last statement of the transaction finds the row.
  abbrev pub StillLive : File → List File → Type 0
  StillLive f rows =
      eqb
        (length (
          keep (is_live p (env.now delete_file) cmd.alias)
            (set_downloads (same_alias p cmd.alias) (pred_int16 f.downloads_left) rows)))
        0
      ≡ false

  choose-Returns :
      (b : Bool) (o : Opened) (rows : List File) (w : World)
      → w.tx ≡ some rows
      → eqb (length (keep (is_live p (env.now delete_file) cmd.alias) rows)) 0 ≡ false
      → Post (λ c _. c ≡ o) (λ _ _. ⊥) ((if b then keep_file o else drop_file p cmd o) env w)
  choose-Returns true o rows w t n = keep_file-Returns o rows w t
  choose-Returns false o rows w t n = drop_file-Returns o rows w t n

  count_download-Returns :
      (o : Opened) (f : File) (rows : List File) (w : World)
      → w.tx ≡ some rows
      → find_row (is_live p (env.now select_downloads) cmd.alias) rows ≡ some f
      → is_zero f.downloads_left ≡ false
      → StillLive f rows
      → Returns (λ b _. b ≡ o) (count_download p cmd o env w)
  unfolding count_download
  count_download-Returns o f rows w t h z n =
      Post-bind env w _ _
        (Post-rewrap env w _ _
          (Returns-of_eq _ _ _ (decrement-calm p env calm w rows t cmd.alias f h z)))
        (λ left v q.
          rw q.0 (choose-Returns (has_more (pred_int16 f.downloads_left)) o _ v (rw q.1 refl) n))
        (λ _ v e. e)

  -- Where no call fails: a download of an alias that has a live row when each statement looks, with
  -- downloads left, whose password test is passed and whose folder holds a file, returns that file.
  pub download_file-Returns :
      (w : World) (info f : File) (entry : Stored) (more : List Stored)
      → find_row (is_live p (env.now select_file) cmd.alias) w.rows ≡ some info
      → check_password p info cmd.password ≡ ok tt
      → entries cmd.alias w.folders ≡ some (entry ∷ more)
      → find_row (is_live p (env.now select_downloads) cmd.alias) w.rows ≡ some f
      → is_zero f.downloads_left ≡ false
      → StillLive f w.rows
      → Returns (λ o _. o.entry ≡ entry) (download_file p cmd env w)
  unfolding download_file
  download_file-Returns w info f entry more seen allowed listing found z n =
      Post-bind env w _ _
        (Post-rewrap env w _ _
          (Returns-of_eq _ _ _ (get_file_by_alias-calm p env calm w cmd.alias info seen)))
        (λ i v q.
          rw (q.0, q.1)
            (Post-bind {Q = λ _ u. u ≡ w} env w _ _
              (Post-rewrap {F = λ _. ⊥} env w _ _
                (Post-lift env w _ (λ _ _. refl) (λ _ e. absurd (ground (arith, allowed)))))
              (λ _ u e. rw e (
                Post-bind env w _ _
                  (Post-rewrap env w _ _
                    (Returns-of_eq _ _ _ (download-calm env calm w cmd.alias entry more listing)))
                  (λ o x r.
                    rw (r.0, r.1)
                      (Post-bind env _ _ _
                        (Post-unless_success env _ _ _
                          (Post-rewrap env _ _ _ (Returns-of_eq _ _ _ (begin-calm p env calm _))))
                        (λ _ y s. rw s.1 (
                          Post-unless_success env _ _ _ (
                            Post-mono _ (λ b _ t. rw t refl) (λ _ _ e. e)
                              (count_download-Returns (record { entry = entry }) f w.rows _ refl
                                found z n))))
                        (λ _ y e. e)))
                  (λ _ x e. e)))
              (λ _ u e. e)))
        (λ _ v e. e)
