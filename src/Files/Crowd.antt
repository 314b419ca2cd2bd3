-- ===== src/Files/Crowd.antt =====
-- Uploads that run at the same time. Each asks for its user's files (GetFilesStatByUserID) and
-- tests the quota before it opens its transaction; its INSERT and the commit are one step here,
-- since the unique key of the table holds a second INSERT of the alias back until then. The folder
-- is left out: only the table decides who is stored.
pub mod Race
use expire_share_api.Prelude.{
  ℕ, ℤ, pos, ltb_ℤ, Bool, true, false, String, Option, none, some, List, [], ◌∷◌, ◌++◌, ◌≡◌, ◌⊎◌,
  inl, inr, refl, ap, arith, eqb, if◌then◌else◌, Option-cases, set_phase, Star, start, step,
}
use expire_share_api.Domain.{File, AddFile, FilesStat, Permissions, UserRole}
use expire_share_api.World.{Platform, Result, ok, err, Done}
use expire_share_api.Repo.{insert_row, new_row}
use expire_share_api.Repo.Table.{row_at, IsValid, append-IsValid}
use expire_share_api.Repo.Transactions.{stat_of}
use expire_share_api.Files.{check_upload_quote}

-- How far an upload has come.
pub data Phase : Type 0 where
  waiting allowed stored refused : Phase

pub record Shared : Type 0 where
  pub rows : List File
  pub phase : ℕ → Phase

-- `if err := fs.checkUploadQuote(...); err != nil { return }`
abbrev pub after_check : Result Done → Phase
after_check (ok _) = allowed
after_check (err e) = refused

-- AddFileTx, and the commit where it has inserted the row.
abbrev pub after_insert : List File → Result Bool × List File → Phase × List File
after_insert old (ok true, rows) = (stored, rows)
after_insert old (ok false, rows) = (refused, old)
after_insert old (err e, rows) = (refused, old)

-- Upload `i` adds the row `adds i` for a user with the roles `roles i`.
module _ (p : Platform) (cfg : Permissions) (adds : ℕ → AddFile) (roles : ℕ → List UserRole) where
  unfoldable pub check_stat : ℕ → List File → Phase
  check_stat i rows =
      after_check
        (check_upload_quote cfg (stat_of (adds i).user_id rows) (adds i).filesize (roles i))

  unfoldable pub store_row : ℕ → ℕ → List File → Phase × List File
  store_row i now rows = after_insert rows (insert_row p (adds i) now rows)

  abbrev pub checks : ℕ → Shared → Shared
  checks i s = record s { phase = set_phase i (check_stat i s.rows) s.phase }

  abbrev pub stores : ℕ → ℕ → Shared → Shared
  stores i now s = record {
    rows = (store_row i now s.rows).1;
    phase = set_phase i (store_row i now s.rows).0 s.phase;
  }

  pub data Step : Shared → Shared → Type 0 where
    check : {s : Shared} (i : ℕ) → s.phase i ≡ waiting → Step s (checks i s)
    store : {s : Shared} (i now : ℕ) → s.phase i ≡ allowed → Step s (stores i now s)
    fail :
        {s : Shared} (i : ℕ)
        → s.phase i ≡ allowed
        → Step s (record s { phase = set_phase i refused s.phase })

  abbrev pub Reaches : Shared → Shared → Type 0
  Reaches s t = Star Step s t

  abbrev pub fresh : List File → Shared
  fresh rows = record { rows = rows; phase = λ _. waiting }

  pub store_row-new :
      (i now : ℕ) (rows : List File)
      → row_at p (adds i).alias rows ≡ none
      → store_row i now rows ≡ (stored, rows ++ new_row p (adds i) now ∷ [])
  unfolding store_row insert_row
  store_row-new i now rows h = ground arith

  store_row-taken :
      (i now : ℕ) (rows : List File) (f : File)
      → row_at p (adds i).alias rows ≡ some f
      → store_row i now rows ≡ (refused, rows)
  unfolding store_row insert_row
  store_row-taken i now rows f h = ground arith

  module _ (positive : (i : ℕ) → ltb_ℤ (pos 0) (adds i).max_downloads ≡ true) where
    Step-IsValid : {s t : Shared} → Step s t → IsValid p s.rows → IsValid p t.rows
    Step-IsValid (check i w) v = v
    Step-IsValid (fail i w) v = v
    Step-IsValid (store {s} i now w) v = elim (Option-cases (row_at p (adds i).alias s.rows)) [
      | inl h ↦
          rw (store_row-new i now s.rows h)
            (append-IsValid p s.rows (new_row p (adds i) now) v (positive i) h)
      | inr (f, h) ↦ rw (store_row-taken i now s.rows f h) v
    ]

    Star-IsValid : {s t : Shared} → Reaches s t → IsValid p s.rows → IsValid p t.rows
    Star-IsValid start v = v
    Star-IsValid (step r e) v = Step-IsValid e (Star-IsValid r v)

  -- Where every upload asks for a positive number of downloads: whatever uploads run at once, with
  -- whatever aliases, in whatever order they check, insert and fail, a valid table stays valid, so no
  -- two rows ever have one alias.
  pub uploads_valid :
      (rows : List File) (t : Shared)
      → ((i : ℕ) → ltb_ℤ (pos 0) (adds i).max_downloads ≡ true)
      → IsValid p rows
      → Reaches (fresh rows) t
      → IsValid p t.rows
  uploads_valid rows t positive v r = Star-IsValid positive r v
