-- ===== src/Files/Tidy.antt =====
-- Every folder of the storage has the row of a file, where no call fails and the callers spell an
-- alias as its row does.
pub mod Kept
use expire_share_api.Prelude.{
  ℕ, String, none, some, List, [], ◌∷◌, ◌++◌, Bool, true, false, not, ◌≡◌, ◌≢◌, inl, inr, refl,
  arith, eq_iff, ℤ, ◌==◌, ◌||◌, keep, take, map, All, Bool-cases, zero, suc, if◌then◌else◌,
}
use expire_share_api.Domain.{File, AliasCommand, DownloadFile, UploadFile, Permissions}
use expire_share_api.World.{
  World, Env, Platform, Call, Folder, commit, remove_folder, select_expired,
}
use expire_share_api.World.Post.{Post-mono}
use expire_share_api.Storage.{entries, remove_all}
use expire_share_api.Storage.Folders.{entries-remove_all}
use expire_share_api.Repo.{set_downloads, same_alias}
use expire_share_api.Repo.Effects.{without}
use expire_share_api.Repo.Transactions.{Applies}
use expire_share_api.Repo.Table.{
  row_at, IsValid, others, row_at-others, keep-IsValid, delete_live_of_valid,
}
use expire_share_api.Files.{upload_file, download_file, delete_file as erase}
use expire_share_api.Files.Settled.{settled, settled_folders, Gone}
use expire_share_api.Files.Consistent.{Post-state}
use expire_share_api.Files.Atomic.{Same, Erased, Drawn, delete_file-Whole, download_file-Whole}
use expire_share_api.Files.Backed.{delete_only}
use expire_share_api.Files.Uploading.{Stores, upload_file-calm}
use expire_share_api.Worker.{round, batch_limit}
use expire_share_api.Worker.Progress.{cleared, round-calm}
use expire_share_api.Worker.Expired.{is_expired}
use expire_share_api.Worker.Round.{batch}

-- A row has the alias, letter by letter.
abbrev pub spelled : String → List File → Bool
spelled a [] = false
spelled a (f ∷ fs) = f.alias == a || spelled a fs

pub spelled-set_downloads :
    (a : String) (test : File → Bool) (n : ℤ) (rows : List File)
    → spelled a (set_downloads test n rows) ≡ spelled a rows
spelled-set_downloads a test n [] = refl
spelled-set_downloads a test n (f ∷ fs) = ground (arith, spelled-set_downloads a test n fs)

module _ (p : Platform) where
  -- The row that the database finds by the alias spells it in the same way.
  abbrev pub AsWritten : List File → String → Type 0
  AsWritten rows b = (f : File) → row_at p b rows ≡ some f → f.alias ≡ b

  -- Only aliases of rows name folders.
  abbrev pub TidyBy : List Folder → List File → Type 0
  TidyBy folders rows = (a : String) → spelled a rows ≡ false → entries a folders ≡ none

  abbrev pub Tidy : World → Type 0
  Tidy w = TidyBy w.folders w.rows

  pub absent-spelled :
      (a : String) (rows : List File) → row_at p a rows ≡ none → spelled a rows ≡ false
  absent-spelled a [] h = refl
  absent-spelled a (f ∷ fs) h =
      ground (arith, absent-spelled a fs, eq_iff f.alias a, eq_iff (p.weight f.alias) (p.weight a))

  pub row_at-same :
      (a b : String) (rows : List File)
      → p.weight a ≡ p.weight b
      → row_at p a rows ≡ row_at p b rows
  row_at-same a b [] h = refl
  row_at-same a b (f ∷ fs) h = ground (arith, h, row_at-same a b fs)

  -- No row has another spelling of an alias that is written as its row has it.
  other_spelling :
      (a b : String) (rows : List File)
      → IsValid p rows
      → AsWritten rows b
      → p.weight a ≡ p.weight b
      → a ≢ b
      → spelled a rows ≡ false
  other_spelling a b [] v k h ne = refl
  other_spelling a b (f ∷ fs) v k h ne = elim (Bool-cases (p.weight f.alias == p.weight b)) [
    | inl here ↦ ground (
      arith,
      k f,
      absent-spelled a fs,
      row_at-same a f.alias fs,
      eq_iff f.alias a,
      eq_iff (p.weight f.alias) (p.weight b),
    )
    | inr there ↦ ground (
      arith,
      other_spelling a b fs v.2 (λ g e. k g (ground (arith, e))) h ne,
      eq_iff f.alias a,
      eq_iff (p.weight f.alias) (p.weight b),
    )
  ]

  spelled-others :
      (a b : String) (rows : List File)
      → p.weight a ≢ p.weight b
      → spelled a (others p b rows) ≡ spelled a rows
  spelled-others a b [] ne = refl
  spelled-others a b (f ∷ fs) ne =
      ground
        (arith, spelled-others a b fs ne, eq_iff f.alias a, eq_iff (p.weight f.alias) (p.weight b))

  pub others-Tidy :
      (b : String) (folders : List Folder) (rows : List File)
      → IsValid p rows
      → AsWritten rows b
      → TidyBy folders rows
      → TidyBy (remove_all b folders) (others p b rows)
  others-Tidy b folders rows v k t a h = elim (Bool-cases (b == a)) [
    | inl e ↦ ground (arith, entries-remove_all b a folders)
    | inr ne ↦ elim (Bool-cases (p.weight a == p.weight b)) [
      | inl e ↦ ground (
        arith,
        entries-remove_all b a folders,
        t a,
        other_spelling a b rows v k ((eq_iff (p.weight a) (p.weight b)).0 e)
            (λ q. ground (arith, eq_iff b a)),
      )
      | inr far ↦ ground (
        arith,
        entries-remove_all b a folders,
        t a,
        spelled-others a b rows (λ q. ground (arith, eq_iff (p.weight a) (p.weight b))),
      )
    ]
  ]

  pub set_downloads-Tidy :
      (b : String) (n : ℤ) (folders : List Folder) (rows : List File)
      → TidyBy folders rows
      → TidyBy folders (set_downloads (same_alias p b) n rows)
  set_downloads-Tidy b n folders rows t a h =
      t a (rw (spelled-set_downloads a (same_alias p b) n rows) at h)

  -- The aliases of a part of the rows stay as written when rows are taken away.
  AsWritten-others :
      (b c : String) (rows : List File) → AsWritten rows c → AsWritten (others p b rows) c
  AsWritten-others b c rows k f h = k f (ground (arith, row_at-others p b c rows))

  All-AsWritten-others :
      (b : String) (names : List String) (rows : List File)
      → All (AsWritten rows) names
      → All (AsWritten (others p b rows)) names
  All-AsWritten-others b [] rows k = tt
  All-AsWritten-others b (c ∷ more) rows k =
      (AsWritten-others b c rows k.0, All-AsWritten-others b more rows k.1)

  pub without-Tidy :
      (names : List String) (folders : List Folder) (rows : List File)
      → IsValid p rows
      → All (AsWritten rows) names
      → TidyBy folders rows
      → TidyBy (cleared names folders) (without p names rows)
  without-Tidy [] folders rows v k t = t
  without-Tidy (b ∷ more) folders rows v k t =
      without-Tidy more (remove_all b folders) (others p b rows)
        (keep-IsValid p (λ f. not (same_alias p b f)) rows v) (All-AsWritten-others b more rows k.1)
        (others-Tidy b folders rows v k.0 t)
