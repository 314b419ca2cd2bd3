-- ===== src/Repo/Table.antt =====
-- The table as a map from aliases to rows, and its invariant: at most one row for each alias, by
-- the database's comparison, and at least one download left in every row.
use expire_share_api.Prelude.{
  ℕ, ◌<◌, String, Option, none, some, List, [], ◌∷◌, ◌++◌, Bool, true, not, ◌≡◌, refl, arith, ◌==◌,
  eq_iff, if◌then◌else◌, ltb_ℤ, ℤ, pos, keep, length,
}
use expire_share_api.Domain.{File}
use expire_share_api.World.{Platform}
use expire_share_api.Repo.{find_row, same_alias, is_live, set_downloads}

abbrev pub with_downloads : ℤ → Option File → Option File
with_downloads n none = none
with_downloads n (some f) = some (record f { downloads_left = n })

abbrev pub or_else : Option File → Option File → Option File
or_else none o = o
or_else (some f) o = some f

module _ (p : Platform) where
  -- The row of an alias, live or expired.
  abbrev pub row_at : String → List File → Option File
  row_at alias rows = find_row (same_alias p alias) rows

  abbrev pub same : String → String → Bool
  same a b = p.weight a == p.weight b

  abbrev pub IsValid : List File → Type 0
  IsValid [] = Unit
  IsValid (f ∷ fs) =
      (ltb_ℤ (pos 0) f.downloads_left ≡ true) × (row_at f.alias fs ≡ none) × IsValid fs

  pub row_at-append :
      (a : String) (rows : List File) (f : File)
      → row_at a (rows ++ f ∷ [])
        ≡ or_else (row_at a rows) (if same_alias p a f then some f else none)
  row_at-append a [] f = ground arith
  row_at-append a (g ∷ gs) f = ground (arith, row_at-append a gs f)

  pub row_at-set_downloads :
      (a b : String) (n : ℤ) (rows : List File)
      → row_at b (set_downloads (same_alias p a) n rows)
        ≡ (if same a b then with_downloads n (row_at b rows) else row_at b rows)
  row_at-set_downloads a b n [] = ground arith
  row_at-set_downloads a b n (f ∷ fs) = ground (
    arith,
    row_at-set_downloads a b n fs,
    eq_iff (p.weight a) (p.weight b),
    eq_iff (p.weight f.alias) (p.weight a),
    eq_iff (p.weight f.alias) (p.weight b),
  )

  abbrev pub others : String → List File → List File
  others a rows = keep (λ f. not (same_alias p a f)) rows

  pub row_at-others :
      (a b : String) (rows : List File)
      → row_at b (others a rows) ≡ (if same a b then none else row_at b rows)
  row_at-others a b [] = ground arith
  row_at-others a b (f ∷ fs) = ground (
    arith,
    row_at-others a b fs,
    eq_iff (p.weight a) (p.weight b),
    eq_iff (p.weight f.alias) (p.weight a),
    eq_iff (p.weight f.alias) (p.weight b),
  )

  -- A row stays absent where rows are taken away.
  pub row_at-keep :
      (a : String) (test : File → Bool) (rows : List File)
      → row_at a rows ≡ none
      → row_at a (keep test rows) ≡ none
  row_at-keep a test [] h = refl
  row_at-keep a test (f ∷ fs) h = ground (arith, row_at-keep a test fs)

  pub keep-IsValid :
      (test : File → Bool) (rows : List File) → IsValid rows → IsValid (keep test rows)
  keep-IsValid test [] v = tt
  keep-IsValid test (f ∷ fs) v =
      ground (arith, keep-IsValid test fs v.2, row_at-keep f.alias test fs)

  pub append-IsValid :
      (rows : List File) (f : File)
      → IsValid rows
      → ltb_ℤ (pos 0) f.downloads_left ≡ true
      → row_at f.alias rows ≡ none
      → IsValid (rows ++ f ∷ [])
  append-IsValid [] f v d h = (d, refl, tt)
  append-IsValid (g ∷ gs) f v d h = ground (
    arith,
    append-IsValid gs f v.2 d,
    row_at-append g.alias gs f,
    eq_iff (p.weight f.alias) (p.weight g.alias),
    eq_iff (p.weight g.alias) (p.weight f.alias),
  )

  pub set_downloads-IsValid :
      (a : String) (n : ℤ) (rows : List File)
      → IsValid rows
      → ltb_ℤ (pos 0) n ≡ true
      → IsValid (set_downloads (same_alias p a) n rows)
  set_downloads-IsValid a n [] v d = tt
  set_downloads-IsValid a n (f ∷ fs) v d =
      ground (arith, set_downloads-IsValid a n fs v.2 d, row_at-set_downloads a f.alias n fs)

  -- No row of the alias: nothing to set and nothing to delete.
  pub absent :
      (a : String) (n : ℤ) (now : ℕ) (rows : List File)
      → row_at a rows ≡ none
      → (keep (λ f. not (is_live p now a f)) (set_downloads (same_alias p a) n rows) ≡ rows)
        × (others a rows ≡ rows)
        × (keep (is_live p now a) (set_downloads (same_alias p a) n rows) ≡ [])
  absent a n now [] h = (refl, refl, refl)
  absent a n now (f ∷ fs) h = ground (arith, absent a n now fs)

  -- A delete that has removed a live row of the alias has removed the only row of the alias.
  pub delete_live_of_valid :
      (a : String) (n : ℤ) (now : ℕ) (rows : List File)
      → IsValid rows
      → 0 < length (keep (is_live p now a) (set_downloads (same_alias p a) n rows))
      → keep (λ f. not (is_live p now a f)) (set_downloads (same_alias p a) n rows) ≡ others a rows
  delete_live_of_valid a n now [] v h = refl
  delete_live_of_valid a n now (f ∷ fs) v h = ground (
    arith,
    delete_live_of_valid a n now fs v.2,
    absent a n now fs,
    eq_iff (p.weight f.alias) (p.weight a),
    eq_iff (p.weight f.alias) (p.weight f.alias),
  )

  -- The live row of an alias is the row of the alias.
  pub find_live :
      (a : String) (now : ℕ) (rows : List File) (f : File)
      → IsValid rows
      → find_row (is_live p now a) rows ≡ some f
      → (row_at a rows ≡ some f) × (is_live p now a f ≡ true)
  find_live a now [] f v h = cc
  find_live a now (g ∷ gs) f v h =
      ground (arith, find_live a now gs f v.2, eq_iff (p.weight g.alias) (p.weight a))
