-- ===== src/Files/Overlap.antt =====
-- Downloads of one alias that run at the same time. Each reads the counter by a plain SELECT
-- (DecrementDownloadsByAliasTx), which takes no lock, and writes the number that it has computed;
-- the write holds the row's lock until the commit, so a write and its commit are one step here.
-- Rows that others delete meanwhile are a step too. The folder is left out: only the table decides
-- who is served.
pub mod Bounds
pub mod Alone
pub mod Lost
pub mod Last
use expire_share_api.Prelude.{
  set_phase, Star, start, step, ℕ, zero, suc, ◌≤◌, ◌<◌, ℤ, pos, pos_part, ltb_ℤ, is_zero,
  pred_int16, Bool, true, false, not, String, Option, none, some, List, ◌≡◌, ◌⊎◌, inl, inr, refl,
  sym, ◌∙◌, arith, eq_iff, ◌==◌, eqb, ltb, length, keep, if◌then◌else◌, Bool-cases, Option-cases,
  negsuc,
}
use expire_share_api.Domain.{File}
use expire_share_api.World.{Platform}
use expire_share_api.Repo.{find_row, is_live, same_alias, set_downloads}
use expire_share_api.Repo.Table.{
  row_at, same, IsValid, others, with_downloads, row_at-set_downloads, row_at-others,
  set_downloads-IsValid, keep-IsValid, delete_live_of_valid, find_live,
}
use expire_share_api.Files.Spending.{downloads_of, row_at-positive}

-- How far a download has come: `has_read n` has seen n in its SELECT.
pub data Phase : Type 0 where
  waiting : Phase
  has_read : ℤ → Phase
  served refused : Phase

-- The committed table, and every download that is under way.
pub record Shared : Type 0 where
  pub rows : List File
  pub phase : ℕ → Phase

-- SELECT downloads_left, and the test of it.
unfoldable pub after_read : Option File → Phase
after_read none = refused
after_read (some f) = if is_zero f.downloads_left then refused else has_read f.downloads_left

pub after_read-none : (o : Option File) → o ≡ none → after_read o ≡ refused
unfolding after_read
after_read-none o e = ground arith

pub after_read-some :
    (f : File) (o : Option File)
    → o ≡ some f
    → ltb_ℤ (pos 0) f.downloads_left ≡ true
    → after_read o ≡ has_read f.downloads_left
unfolding after_read
after_read-some f o e h = ground arith

module _ (p : Platform) (alias : String) where
  -- UPDATE with the number less one, then the commit; after the last download DELETE first, which
  -- refuses where it finds no live row.
  unfoldable pub end_download : ℕ → ℤ → List File → Phase × List File
  end_download now n rows =
      let left = pred_int16 n in
      let updated = set_downloads (same_alias p alias) left rows in
      if ltb_ℤ (pos 0) left
      then (served, updated)
      else if eqb (length (keep (is_live p now alias) updated)) 0
      then (refused, rows)
      else (served, keep (λ f. not (is_live p now alias f)) updated)

  abbrev pub reads : ℕ → ℕ → Shared → Shared
  reads i now s = record s {
    phase = set_phase i (after_read (find_row (is_live p now alias) s.rows)) s.phase;
  }

  abbrev pub ends : ℕ → ℕ → ℤ → Shared → Shared
  ends i now n s = record {
    rows = (end_download now n s.rows).1;
    phase = set_phase i (end_download now n s.rows).0 s.phase;
  }

  -- A step of one of the downloads, where one that fails rolls back; or a deletion of rows that is
  -- committed meanwhile, by DeleteFile or by a round of the worker.
  pub data Step : Shared → Shared → Type 0 where
    read : {s : Shared} (i now : ℕ) → s.phase i ≡ waiting → Step s (reads i now s)
    end : {s : Shared} (i now : ℕ) (n : ℤ) → s.phase i ≡ has_read n → Step s (ends i now n s)
    fail :
        {s : Shared} (i : ℕ) (n : ℤ)
        → s.phase i ≡ has_read n
        → Step s (record s { phase = set_phase i refused s.phase })
    remove : {s : Shared} (test : File → Bool) → Step s (record s { rows = keep test s.rows })

  abbrev pub Reaches : Shared → Shared → Type 0
  Reaches s t = Star Step s t

  abbrev pub fresh : List File → Shared
  fresh rows = record { rows = rows; phase = λ _. waiting }

  -- A number that a download may have read where at most `d` downloads were left.
  abbrev pub Seen : ℕ → Phase → Type 0
  Seen d (has_read n) = (ltb_ℤ (pos 0) n ≡ true) × (pos_part n ≤ d)
  Seen d _ = Unit

  pub record Bounded (d : ℕ) (s : Shared) : Type 0 where
    pub valid : IsValid p s.rows
    pub counter : downloads_of (row_at p alias s.rows) ≤ d
    pub seen : (i : ℕ) → Seen d (s.phase i)

  pub same_itself : same p alias alias ≡ true
  same_itself = (eq_iff (p.weight alias) (p.weight alias)).1 refl

  pub end_download-kept :
      (now : ℕ) (n : ℤ) (rows : List File)
      → ltb_ℤ (pos 0) (pred_int16 n) ≡ true
      → end_download now n rows ≡ (served, set_downloads (same_alias p alias) (pred_int16 n) rows)
  unfolding end_download
  end_download-kept now n rows h = ground arith

  pub end_download-missing :
      (now : ℕ) (n : ℤ) (rows : List File)
      → ltb_ℤ (pos 0) (pred_int16 n) ≡ false
      → length (keep (is_live p now alias) (set_downloads (same_alias p alias) (pred_int16 n) rows))
        ≡ 0
      → end_download now n rows ≡ (refused, rows)
  unfolding end_download
  end_download-missing now n rows h k = ground arith

  -- The last download takes the row of the alias away.
  pub end_download-last :
      (now : ℕ) (n : ℤ) (rows : List File)
      → IsValid p rows
      → ltb_ℤ (pos 0) (pred_int16 n) ≡ false
      → 0
        < length
            (keep (is_live p now alias) (set_downloads (same_alias p alias) (pred_int16 n) rows))
      → end_download now n rows ≡ (served, others p alias rows)
  unfolding end_download
  end_download-last now n rows v h k =
      ground (arith, delete_live_of_valid p alias (pred_int16 n) now rows v)
