-- ===== src/Repo/Order.antt =====
-- The order of the table's rows: a database may yield them in any order. What the statements of
-- files.go find and what they leave is the same for every order of a table that has one row for
-- each alias.
use mathlib.Core.List.{Permᴰ}
use mathlib.Core.List.Permᴰ
use mathlib.Core.Path.{subst}
use expire_share_api.Prelude.{
  ℤ, Bool, true, String, none, some, List, [], ◌∷◌, ◌≡◌, inl, inr, refl, sym, ◌∙◌, ap, arith,
  eq_iff, keep, length, if◌then◌else◌, Bool-cases,
}
use expire_share_api.Domain.{File}
use expire_share_api.World.{Platform}
use expire_share_api.Repo.{find_row, same_alias, set_downloads, sum_size}
use expire_share_api.Repo.Table.{IsValid, row_at}

keep-swap :
    (test : File → Bool) (a b : File) (rows : List File)
    → Permᴰ (keep test (a ∷ b ∷ rows)) (keep test (b ∷ a ∷ rows))
keep-swap test a b rows = elim (Bool-cases (test a)) [
  | inl ha ↦ elim (Bool-cases (test b)) [
    | inl hb ↦ rw (ha, hb) (Permᴰ.swap refl refl)
    | inr hb ↦ rw (ha, hb) (Permᴰ.refl _)
  ]
  | inr ha ↦ rw ha (Permᴰ.refl _)
]

pub keep-Permᴰ :
    (test : File → Bool) {rows rows' : List File}
    → Permᴰ rows rows'
    → Permᴰ (keep test rows) (keep test rows')
keep-Permᴰ test Permᴰ.nil = Permᴰ.nil
keep-Permᴰ test (Permᴰ.cons {a} {b} {l₁} {l₂} e d) = rw e (elim (Bool-cases (test b)) [
  | inl h ↦ rw h (Permᴰ.cons refl (keep-Permᴰ test d))
  | inr h ↦ rw h (keep-Permᴰ test d)
])
keep-Permᴰ test (Permᴰ.swap {a} {b} {a'} {b'} {l} e₁ e₂) = rw (e₁, e₂) (keep-swap test b' a' l)
keep-Permᴰ test (Permᴰ.trans d₁ d₂) = Permᴰ.trans (keep-Permᴰ test d₁) (keep-Permᴰ test d₂)

pub length-Permᴰ : {rows rows' : List File} → Permᴰ rows rows' → length rows ≡ length rows'
length-Permᴰ Permᴰ.nil = refl
length-Permᴰ (Permᴰ.cons e d) = omega (arith, length-Permᴰ d)
length-Permᴰ (Permᴰ.swap e₁ e₂) = refl
length-Permᴰ (Permᴰ.trans d₁ d₂) = length-Permᴰ d₁ ∙ length-Permᴰ d₂

pub sum_size-Permᴰ : {rows rows' : List File} → Permᴰ rows rows' → sum_size rows ≡ sum_size rows'
sum_size-Permᴰ Permᴰ.nil = refl
sum_size-Permᴰ (Permᴰ.cons e d) = rw e (omega (arith, sum_size-Permᴰ d))
sum_size-Permᴰ (Permᴰ.swap e₁ e₂) = rw (e₁, e₂) (omega arith)
sum_size-Permᴰ (Permᴰ.trans d₁ d₂) = sum_size-Permᴰ d₁ ∙ sum_size-Permᴰ d₂

pub set_downloads-Permᴰ :
    (test : File → Bool) (n : ℤ) {rows rows' : List File}
    → Permᴰ rows rows'
    → Permᴰ (set_downloads test n rows) (set_downloads test n rows')
set_downloads-Permᴰ test n Permᴰ.nil = Permᴰ.nil
set_downloads-Permᴰ test n (Permᴰ.cons e d) = Permᴰ.cons (rw e refl) (set_downloads-Permᴰ test n d)
set_downloads-Permᴰ test n (Permᴰ.swap e₁ e₂) = Permᴰ.swap (rw e₁ refl) (rw e₂ refl)
set_downloads-Permᴰ test n (Permᴰ.trans d₁ d₂) =
    Permᴰ.trans (set_downloads-Permᴰ test n d₁) (set_downloads-Permᴰ test n d₂)

module _ (p : Platform) where
  -- Two rows have two aliases.
  abbrev pub Distinct : List File → Type 0
  Distinct [] = Unit
  Distinct (f ∷ fs) = (row_at p f.alias fs ≡ none) × Distinct fs

  pub Distinct-of_IsValid : (rows : List File) → IsValid p rows → Distinct rows
  Distinct-of_IsValid [] v = tt
  Distinct-of_IsValid (f ∷ fs) v = (v.1, Distinct-of_IsValid fs v.2)

  absent-Permᴰ :
      (a : String) {rows rows' : List File}
      → Permᴰ rows rows'
      → row_at p a rows ≡ none
      → row_at p a rows' ≡ none
  absent-Permᴰ a Permᴰ.nil h = h
  absent-Permᴰ a (Permᴰ.cons {a = f} {b = g} {l₁} {l₂} e d) h =
      let below = absent-Permᴰ a d in ground (arith, ap (λ x. x.alias) e)
  absent-Permᴰ a (Permᴰ.swap {a = f} {b = g} {a' = f'} {b' = g'} {l} e₁ e₂) h =
      ground (arith, ap (λ x. x.alias) e₁, ap (λ x. x.alias) e₂)
  absent-Permᴰ a (Permᴰ.trans d₁ d₂) h = absent-Permᴰ a d₂ (absent-Permᴰ a d₁ h)

  Distinct-swap :
      (f g : File) (rows : List File) → Distinct (f ∷ g ∷ rows) → Distinct (g ∷ f ∷ rows)
  Distinct-swap f g rows v = ground (
    arith,
    eq_iff (p.weight f.alias) (p.weight g.alias),
    eq_iff (p.weight g.alias) (p.weight f.alias),
  )

  pub Distinct-Permᴰ : {rows rows' : List File} → Permᴰ rows rows' → Distinct rows → Distinct rows'
  Distinct-Permᴰ Permᴰ.nil v = tt
  Distinct-Permᴰ (Permᴰ.cons e d) v = (rw (sym e) (absent-Permᴰ _ d v.0), Distinct-Permᴰ d v.1)
  Distinct-Permᴰ (Permᴰ.swap {a = f} {b = g} {a' = f'} {b' = g'} {l} e₁ e₂) v =
      subst (λ x. Distinct (x ∷ g' ∷ l)) e₂
        (subst (λ y. Distinct (g ∷ y ∷ l)) e₁ (Distinct-swap f g l v))
  Distinct-Permᴰ (Permᴰ.trans d₁ d₂) v = Distinct-Permᴰ d₂ (Distinct-Permᴰ d₁ v)

  module _ (a : String) (test : File → Bool)
      (narrow : (f : File) → test f ≡ true → same_alias p a f ≡ true) where
    find_row-swap :
        (f g : File) (rows : List File)
        → row_at p f.alias (g ∷ rows) ≡ none
        → find_row test (f ∷ g ∷ rows) ≡ find_row test (g ∷ f ∷ rows)
    find_row-swap f g rows h = ground (
      arith,
      narrow f,
      narrow g,
      eq_iff (p.weight f.alias) (p.weight a),
      eq_iff (p.weight g.alias) (p.weight a),
      eq_iff (p.weight g.alias) (p.weight f.alias),
    )

    -- A search that only rows of one alias pass.
    pub find_row-Permᴰ :
        {rows rows' : List File}
        → Permᴰ rows rows'
        → Distinct rows
        → find_row test rows ≡ find_row test rows'
    find_row-Permᴰ Permᴰ.nil v = refl
    find_row-Permᴰ (Permᴰ.cons {a = f} {b = g} {l₁} {l₂} e d) v =
        rw e (ap (λ o. if test g then some g else o) (find_row-Permᴰ d v.1))
    find_row-Permᴰ (Permᴰ.swap {a = f} {b = g} {a' = f'} {b' = g'} {l} e₁ e₂) v =
        rw (sym e₁, sym e₂) (find_row-swap f g l v.0)
    find_row-Permᴰ (Permᴰ.trans d₁ d₂) v =
        find_row-Permᴰ d₁ v ∙ find_row-Permᴰ d₂ (Distinct-Permᴰ d₁ v)
