-- ===== src/Files/Backed.antt =====
-- Every row that has not expired has its file in storage, and each use case keeps it so.
use expire_share_api.Prelude.{
  ℕ, ◌≤◌, ◌<◌, String, none, some, List, [], ◌∷◌, ◌++◌, Bool, true, false, not, ◌≡◌, ◌≢◌, inl, inr,
  refl, arith, eq_iff, ℤ, keep, length, Option-cases,
}
use expire_share_api.Domain.{File, AliasCommand, DownloadFile, UploadFile, Permissions}
use expire_share_api.World.{World, Env, Platform, Folder, remove_folder}
use expire_share_api.World.Post.{Post-mono}
use expire_share_api.Storage.{entries, remove_all, base}
use expire_share_api.Storage.Folders.{holds_file, entries-remove_all}
use expire_share_api.Repo.{is_live, set_downloads, same_alias}
use expire_share_api.Repo.Table.{
  row_at, same, IsValid, others, row_at-append, row_at-set_downloads, row_at-others,
  delete_live_of_valid,
}
use expire_share_api.Repo.Transactions.{Applies}
use expire_share_api.Files.{upload_file, download_file, delete_file as erase}
use expire_share_api.Files.Settled.{settled, settled_folders, Gone}
use expire_share_api.Files.Consistent.{Post-state}
use expire_share_api.Files.Atomic.{Same, Erased, Drawn, delete_file-Whole, download_file-Whole}
use expire_share_api.Files.Written.{Written, upload_file-Written}

module _ (p : Platform) where
  pub row_at-own :
      (a : String) (rows : List File) (f : File)
      → row_at p a rows ≡ some f
      → (row_at p f.alias rows ≡ some f) × (same p f.alias a ≡ true)
  row_at-own a [] f h = cc
  row_at-own a (g ∷ gs) f h = ground (
    arith,
    row_at-own a gs f,
    eq_iff (p.weight g.alias) (p.weight a),
    eq_iff (p.weight f.alias) (p.weight a),
    eq_iff (p.weight g.alias) (p.weight f.alias),
  )

  delete_none :
      (a : String) (now : ℕ) (rows : List File)
      → row_at p a rows ≡ none
      → (keep (λ f. not (is_live p now a f)) rows ≡ rows)
        × (others p a rows ≡ rows)
        × (keep (is_live p now a) rows ≡ [])
  delete_none a now [] h = (refl, refl, refl)
  delete_none a now (f ∷ fs) h = ground (arith, delete_none a now fs)

  -- A DELETE that has found a live row has removed the only row of the alias.
  pub delete_only :
      (a : String) (now : ℕ) (rows : List File)
      → IsValid p rows
      → 0 < length (keep (is_live p now a) rows)
      → keep (λ f. not (is_live p now a f)) rows ≡ others p a rows
  delete_only a now [] v h = refl
  delete_only a now (f ∷ fs) v h = ground (
    arith,
    delete_only a now fs v.2,
    delete_none a now fs,
    eq_iff (p.weight f.alias) (p.weight a),
    eq_iff (p.weight f.alias) (p.weight f.alias),
  )

  module _ (t : ℕ) where
    -- The table's rows with that much time have their file.
    abbrev pub BackedBy : List Folder → List File → Type 0
    BackedBy folders rows =
        (a : String) (f : File)
        → row_at p a rows ≡ some f
        → t ≤ f.expires_at
        → holds_file (base f.name) (entries f.alias folders) ≡ true

    abbrev pub Backed : World → Type 0
    Backed w = BackedBy w.folders w.rows

    others-Backed :
        (a : String) (folders : List Folder) (rows : List File)
        → BackedBy folders rows
        → BackedBy (remove_all a folders) (others p a rows)
    others-Backed a folders rows b c f h later = ground (
      arith,
      row_at-others p a c rows,
      entries-remove_all a f.alias folders,
      b c f,
      row_at-own c rows f,
      eq_iff a f.alias,
      eq_iff (p.weight a) (p.weight c),
      eq_iff (p.weight f.alias) (p.weight c),
    )

    set_downloads-Backed :
        (a : String) (n : ℤ) (folders : List Folder) (rows : List File)
        → BackedBy folders rows
        → BackedBy folders (set_downloads (same_alias p a) n rows)
    set_downloads-Backed a n folders rows b c f h later =
        let e = row_at-set_downloads p a c n rows in
        elim (Option-cases (row_at p c rows)) [
          | inl gone ↦ ground (arith, e, gone)
          | inr (g, here) ↦ ground (arith, e, here, b c g here)
        ]

    settled-Backed :
        (cmd : DownloadFile) (env : Env) (more : Bool) (left : ℤ) (folders : List Folder)
        (rows : List File)
        → IsValid p rows
        → Gone p cmd env more left rows
        → BackedBy folders rows
        → BackedBy (settled_folders p cmd env more folders) (settled p cmd env more left rows)
    settled-Backed cmd env true left folders rows v g b =
        set_downloads-Backed cmd.alias left folders rows b
    settled-Backed cmd env false left folders rows v g b =
        rw (delete_live_of_valid p cmd.alias left _ rows v g)
          (others-Backed cmd.alias folders rows b)

    Same-Backed : (w x : World) → Same w x → Backed w → Backed x
    Same-Backed w x s b = rw (s.rows, s.folders) b

    module _ (env : Env) (a : Applies env)
        (clean : (alias : String) → env.fault (remove_folder alias) ≡ none) (w : World)
        (v : IsValid p w.rows) (b : Backed w) where
      Erased-Backed :
          (cmd : AliasCommand) (x : World) → Erased p cmd env a (clean cmd.alias) w x → Backed x
      Erased-Backed cmd x e =
          rw (e.rows, e.folders, delete_only cmd.alias _ w.rows v e.found)
            (others-Backed cmd.alias w.folders w.rows b)

      Drawn-Backed :
          (cmd : DownloadFile) (x : World) → Drawn p cmd env a (clean cmd.alias) w x → Backed x
      Drawn-Backed cmd x d =
          rw (d.rows, d.folders) (settled-Backed cmd env _ _ w.folders w.rows v d.gone b)

      unharmed :
          (cmd : UploadFile) (alias : String) (x : World)
          → Written p cmd alias env a w x
          → BackedBy x.folders w.rows
      unharmed cmd alias x n c f h later =
          let own = (row_at-own c w.rows f h).0 in
          let ne : alias ≢ f.alias = λ e. cc (own, n.fresh, e) in
          rw (n.others f.alias ne) (b c f h later)

      appended :
          (folders : List Folder) (g : File)
          → BackedBy folders w.rows
          → holds_file (base g.name) (entries g.alias folders) ≡ true
          → BackedBy folders (w.rows ++ g ∷ [])
      appended folders g old new c f h later =
          let e = row_at-append p c w.rows g in
          elim (Option-cases (row_at p c w.rows)) [
            | inl free ↦ ground (arith, e, free)
            | inr (k, here) ↦ ground (arith, e, here, old c k here)
          ]

      Written-Backed :
          (cmd : UploadFile) (alias : String) (x : World) → Written p cmd alias env a w x → Backed x
      Written-Backed cmd alias x n = elim n.rows [
        | inl e ↦ rw e (unharmed cmd alias x n)
        | inr (e, file) ↦ rw e (appended x.folders _ (unharmed cmd alias x n) file)
      ]

      pub upload_file-Backed :
          (cfg : Permissions) (cmd : UploadFile) (alias : String)
          → Backed (upload_file p cfg cmd alias env w).1
      upload_file-Backed cfg cmd alias = Post-state Backed _ (
          Post-mono _ (λ _ x n. Written-Backed cmd alias x n)
            (λ _ x o. elim o [ inl s ↦ Same-Backed w x s b | inr n ↦ Written-Backed cmd alias x n ])
            (upload_file-Written p cmd alias env a w cfg))

      pub delete_file-Backed : (cmd : AliasCommand) → Backed (erase p cmd env w).1
      delete_file-Backed cmd = Post-state Backed _ (
          Post-mono _ (λ _ x e. Erased-Backed cmd x e)
            (λ _ x o. elim o [ inl s ↦ Same-Backed w x s b | inr e ↦ Erased-Backed cmd x e ])
            (delete_file-Whole p cmd env a (clean cmd.alias) w))

      pub download_file-Backed : (cmd : DownloadFile) → Backed (download_file p cmd env w).1
      download_file-Backed cmd = Post-state Backed _ (
          Post-mono _ (λ _ x d. Drawn-Backed cmd x d)
            (λ _ x o. elim o [ inl s ↦ Same-Backed w x s b | inr d ↦ Drawn-Backed cmd x d ])
            (download_file-Whole p cmd env a (clean cmd.alias) w))
