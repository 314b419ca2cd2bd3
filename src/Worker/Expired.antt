-- ===== src/Worker/Expired.antt =====
-- The rows and the aliases that a batch of the worker takes away.
use expire_share_api.Worker.Sweeps.{lists}
use expire_share_api.Prelude.{
  ℕ, zero, suc, String, none, some, List, [], ◌∷◌, Bool, true, false, ◌≡◌, inl, inr, refl, ◌∙◌,
  arith, eq_iff, if◌then◌else◌, ltb, keep, take, map, Bool-cases,
}
use expire_share_api.Domain.{File}
use expire_share_api.World.{Platform}
use expire_share_api.Repo.{expired_aliases}
use expire_share_api.Repo.Effects.{without}
use expire_share_api.Repo.Table.{row_at, same, IsValid, row_at-others, keep-IsValid}

abbrev pub is_expired : ℕ → File → Bool
is_expired now f = ltb f.expires_at now

-- The aliases of a list, by the database's comparison.
module _ (p : Platform) where
  abbrev pub names : String → List String → Bool
  names b [] = false
  names b (a ∷ more) = if same p a b then true else names b more

  pub row_at-without :
      (b : String) (aliases : List String) (rows : List File)
      → row_at p b (without p aliases rows) ≡ (if names b aliases then none else row_at p b rows)
  row_at-without b [] rows = refl
  row_at-without b (a ∷ more) rows =
      row_at-without b more _ ∙ ground (arith, row_at-others p a b rows)

  pub without-IsValid :
      (aliases : List String) (rows : List File)
      → IsValid p rows
      → IsValid p (without p aliases rows)
  without-IsValid [] rows v = v
  without-IsValid (a ∷ more) rows v = without-IsValid more _ (keep-IsValid p _ rows v)

  names-take :
      (b : String) (n : ℕ) (xs : List File)
      → names b (map (λ f. f.alias) (take n xs)) ≡ true
      → names b (map (λ f. f.alias) xs) ≡ true
  names-take b zero xs h = cc
  names-take b (suc n) [] h = h
  names-take b (suc n) (x ∷ xs) h = ground (arith, names-take b n xs)

  -- What `names-expired` says, for a batch with no limit.
  abbrev IsExpired : String → ℕ → List File → Type 0
  IsExpired b now rows = (f : File) × (row_at p b rows ≡ some f) × (is_expired now f ≡ true)

  names-keep :
      (b : String) (now : ℕ) (rows : List File)
      → IsValid p rows
      → names b (map (λ f. f.alias) (keep (is_expired now) rows)) ≡ true
      → IsExpired b now rows
  names-keep b now [] v h = cc
  names-keep b now (f ∷ fs) v h = elim (Bool-cases (same p f.alias b)) [
    | inl here ↦ elim (Bool-cases (is_expired now f)) [
      | inl gone ↦ (f, ground arith, gone)
      | inr stays ↦
          let (g, e, _) = names-keep b now fs v.2 (ground arith) in
          absurd (ground (arith, eq_iff (p.weight f.alias) (p.weight b)))
    ]
    | inr elsewhere ↦ let (g, e, x) = names-keep b now fs v.2 (ground arith) in (g, ground arith, x)
  ]

  -- A name in a batch is that of an expired row, which is the row of the name.
  pub names-expired :
      (b : String) (limit now : ℕ) (rows : List File)
      → IsValid p rows
      → names b (expired_aliases limit now rows) ≡ true
      → (f : File) × (row_at p b rows ≡ some f) × (is_expired now f ≡ true)
  names-expired b limit now rows v h = names-keep b now rows v (names-take b limit _ h)

  pub lists-names :
      (b : String) (aliases : List String) → lists b aliases ≡ true → names b aliases ≡ true
  lists-names b [] h = h
  lists-names b (a ∷ more) h =
      ground (arith, lists-names b more, eq_iff a b, eq_iff (p.weight a) (p.weight b))
