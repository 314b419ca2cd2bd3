-- ===== src/Repo/Counts.antt =====
-- The counters of the rows: that all of them lie between 1 and a bound, through every change of the
-- table.
use expire_share_api.Prelude.{
  ℕ, zero, suc, ◌≤◌, ℤ, pos, negsuc, pos_part, pred_int16, ltb_ℤ, Bool, true, String, some, List,
  [], ◌∷◌, ◌++◌, ◌≡◌, arith, inl, inr, keep, All, Bool-cases,
}
use expire_share_api.Domain.{File}
use expire_share_api.World.{Platform}
use expire_share_api.Repo.{find_row, set_downloads}
use expire_share_api.Repo.Effects.{without}

module _ (m : ℕ) where
  -- A count of downloads between 1 and `m`.
  abbrev pub InRange : ℤ → Type 0
  InRange n = (ltb_ℤ (pos 0) n ≡ true) × (pos_part n ≤ m)

  abbrev pub Counts : List File → Type 0
  Counts rows = All (λ f. InRange f.downloads_left) rows

  pub keep-Counts : (test : File → Bool) (rows : List File) → Counts rows → Counts (keep test rows)
  keep-Counts test [] c = tt
  keep-Counts test (f ∷ fs) c = elim (Bool-cases (test f)) [
    | inl e ↦ rw e (c.0, keep-Counts test fs c.1)
    | inr e ↦ rw e (keep-Counts test fs c.1)
  ]

  pub append-Counts :
      (rows : List File) (f : File)
      → Counts rows
      → InRange f.downloads_left
      → Counts (rows ++ f ∷ [])
  append-Counts [] f c h = (h, tt)
  append-Counts (g ∷ gs) f c h = (c.0, append-Counts gs f c.1 h)

  pub set_downloads-Counts :
      (test : File → Bool) (n : ℤ) (rows : List File)
      → Counts rows
      → InRange n
      → Counts (set_downloads test n rows)
  set_downloads-Counts test n [] c h = tt
  set_downloads-Counts test n (f ∷ fs) c h = elim (Bool-cases (test f)) [
    | inl e ↦ rw e (h, set_downloads-Counts test n fs c.1 h)
    | inr e ↦ rw e (c.0, set_downloads-Counts test n fs c.1 h)
  ]

  pub find_row-InRange :
      (test : File → Bool) (rows : List File) (f : File)
      → Counts rows
      → find_row test rows ≡ some f
      → InRange f.downloads_left
  find_row-InRange test [] f c h = ground arith
  find_row-InRange test (g ∷ gs) f c h = ground (arith, find_row-InRange test gs f c.1)

  pub without-Counts :
      (p : Platform) (aliases : List String) (rows : List File)
      → Counts rows
      → Counts (without p aliases rows)
  without-Counts p [] rows c = c
  without-Counts p (a ∷ more) rows c = without-Counts p more _ (keep-Counts _ rows c)

  pub pred_int16-InRange :
      (n : ℤ) → InRange n → ltb_ℤ (pos 0) (pred_int16 n) ≡ true → InRange (pred_int16 n)
  pred_int16-InRange (pos zero) h k = ground arith
  pred_int16-InRange (pos (suc n)) h k = ground arith
  pred_int16-InRange (negsuc n) h k = ground arith
