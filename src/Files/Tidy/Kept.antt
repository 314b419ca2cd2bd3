-- ===== src/Files/Tidy/Kept.antt =====
-- What each use case and a round of the worker do to the folders and the rows that they stand for.
use expire_share_api.Prelude.{
  ℕ, String, none, some, List, [], ◌∷◌, ◌++◌, Bool, true, false, ◌≡◌, inl, inr, refl, arith, eq_iff,
  ℤ, ◌==◌, ◌||◌, keep, take, map, All, Bool-cases, zero, suc,
}
use expire_share_api.Domain.{File, AliasCommand, DownloadFile, UploadFile, Permissions}
use expire_share_api.World.{
  World, Env, Platform, Call, Folder, commit, remove_folder, select_expired,
}
use expire_share_api.World.Post.{Post-mono}
use expire_share_api.Repo.Transactions.{Applies}
use expire_share_api.Repo.Table.{row_at, IsValid, delete_live_of_valid}
use expire_share_api.Files.{upload_file, download_file, delete_file as erase}
use expire_share_api.Files.Settled.{settled, settled_folders, Gone}
use expire_share_api.Files.Consistent.{Post-state}
use expire_share_api.Files.Atomic.{Same, Erased, Drawn, delete_file-Whole, download_file-Whole}
use expire_share_api.Files.Backed.{delete_only}
use expire_share_api.Files.Uploading.{Stores, upload_file-calm}
use expire_share_api.Worker.{round, batch_limit}
use expire_share_api.Worker.Progress.{round-calm}
use expire_share_api.Worker.Expired.{is_expired}
use expire_share_api.Worker.Round.{batch}
use expire_share_api.Files.Tidy.{
  spelled, AsWritten, TidyBy, Tidy, row_at-same, others-Tidy, without-Tidy, set_downloads-Tidy,
}

spelled-append :
    (a : String) (rows : List File) (f : File)
    → spelled a (rows ++ f ∷ []) ≡ (spelled a rows || f.alias == a)
spelled-append a [] f = ground arith
spelled-append a (g ∷ gs) f = ground (arith, spelled-append a gs f)

All-take :
    (P : String → Type 0) (n : ℕ) (fs : List File)
    → All P (map (λ f. f.alias) fs)
    → All P (map (λ f. f.alias) (take n fs))
All-take P zero fs h = tt
All-take P (suc n) [] h = tt
All-take P (suc n) (f ∷ fs) h = (h.0, All-take P n fs h.1)

module _ (p : Platform) where
  -- A row's own alias.
  abbrev Named : List File → String → Type 0
  Named rows b = (f : File) × (row_at p b rows ≡ some f) × (f.alias ≡ b)

  Same-Tidy : (w x : World) → Same w x → Tidy p w → Tidy p x
  Same-Tidy w x s t = rw (s.rows, s.folders) t

  Stores-Tidy :
      (cmd : UploadFile) (alias : String) (env : Env) (calm : (c : Call) → env.fault c ≡ none)
      (w : World) (name : String) (x : World)
      → Stores p cmd alias env calm w name x
      → Tidy p w
      → Tidy p x
  Stores-Tidy cmd alias env calm w name x s t a h =
      let gone = rw (s.rows, spelled-append a w.rows _) at h in
      rw (s.others a (λ q. ground (arith, gone, eq_iff alias a))) (t a (ground (arith, gone)))

  Named-cons :
      (g : File) (gs : List File) (c : String)
      → row_at p g.alias gs ≡ none
      → Named gs c
      → Named (g ∷ gs) c
  Named-cons g gs c free (f, here, own) =
      (f, ground (arith, row_at-same p g.alias c gs, eq_iff (p.weight g.alias) (p.weight c)), own)

  All-Named-cons :
      (g : File) (gs : List File) (names : List String)
      → row_at p g.alias gs ≡ none
      → All (Named gs) names
      → All (Named (g ∷ gs)) names
  All-Named-cons g gs [] free h = tt
  All-Named-cons g gs (c ∷ more) free h =
      (Named-cons g gs c free h.0, All-Named-cons g gs more free h.1)

  kept-Named :
      (test : File → Bool) (rows : List File)
      → IsValid p rows
      → All (Named rows) (map (λ f. f.alias) (keep test rows))
  kept-Named test [] v = tt
  kept-Named test (f ∷ fs) v =
      let rest = All-Named-cons f fs _ v.1 (kept-Named test fs v.2) in
      elim (Bool-cases (test f)) [
        | inl keeps ↦
            rw keeps ((f, ground (arith, eq_iff (p.weight f.alias) (p.weight f.alias)), refl), rest)
        | inr drops ↦ rw drops rest
      ]

  All-AsWritten-of_Named :
      (names : List String) (rows : List File)
      → All (Named rows) names
      → All (AsWritten p rows) names
  All-AsWritten-of_Named [] rows h = tt
  All-AsWritten-of_Named (c ∷ more) rows h =
      (λ f e. cc (h.0.1, h.0.2, e), All-AsWritten-of_Named more rows h.1)

  settled-Tidy :
      (cmd : DownloadFile) (env : Env) (more : Bool) (left : ℤ) (folders : List Folder)
      (rows : List File)
      → IsValid p rows
      → AsWritten p rows cmd.alias
      → Gone p cmd env more left rows
      → TidyBy p folders rows
      → TidyBy p (settled_folders p cmd env more folders) (settled p cmd env more left rows)
  settled-Tidy cmd env true left folders rows v k g t =
      set_downloads-Tidy p cmd.alias left folders rows t
  settled-Tidy cmd env false left folders rows v k g t =
      rw (delete_live_of_valid p cmd.alias left _ rows v g)
        (others-Tidy p cmd.alias folders rows v k t)

  module _ (env : Env) (calm : (c : Call) → env.fault c ≡ none) (w : World) (v : IsValid p w.rows)
      (t : Tidy p w) where
    pub upload_file-Tidy :
        (cfg : Permissions) (cmd : UploadFile) (alias : String)
        → Tidy p (upload_file p cfg cmd alias env w).1
    upload_file-Tidy cfg cmd alias = Post-state (Tidy p) _ (
        Post-mono _ (λ name x s. Stores-Tidy cmd alias env calm w name x s t)
          (λ _ x s. Same-Tidy w x s.0 t) (upload_file-calm p cmd alias env calm w cfg))

    pub round-Tidy : Tidy p (round p env w).1
    round-Tidy =
        let names = kept-Named (is_expired (env.now select_expired)) w.rows v in
        rw (round-calm p env calm w) (
          without-Tidy p (batch p env w) w.folders w.rows v
            (All-AsWritten-of_Named _ w.rows (All-take (Named w.rows) batch_limit _ names)) t)

    abbrev applied : Applies env
    applied = inl (calm commit)

    pub delete_file-Tidy :
        (cmd : AliasCommand) → AsWritten p w.rows cmd.alias → Tidy p (erase p cmd env w).1
    delete_file-Tidy cmd k =
        let clean = calm (remove_folder cmd.alias) in
        let done : (x : World) → Erased p cmd env applied clean w x → Tidy p x = λ x e.
          rw (e.rows, e.folders, delete_only p cmd.alias _ w.rows v e.found)
            (others-Tidy p cmd.alias w.folders w.rows v k t) in
        Post-state (Tidy p) _ (
          Post-mono _ (λ _ x e. done x e)
            (λ _ x o. elim o [ inl s ↦ Same-Tidy w x s t | inr e ↦ done x e ])
            (delete_file-Whole p cmd env applied clean w))

    pub download_file-Tidy :
        (cmd : DownloadFile) → AsWritten p w.rows cmd.alias → Tidy p (download_file p cmd env w).1
    download_file-Tidy cmd k =
        let clean = calm (remove_folder cmd.alias) in
        let done : (x : World) → Drawn p cmd env applied clean w x → Tidy p x =
          λ x d. rw (d.rows, d.folders) (settled-Tidy cmd env _ _ w.folders w.rows v k d.gone t) in
        Post-state (Tidy p) _ (
          Post-mono _ (λ _ x d. done x d)
            (λ _ x o. elim o [ inl s ↦ Same-Tidy w x s t | inr d ↦ done x d ])
            (download_file-Whole p cmd env applied clean w))
