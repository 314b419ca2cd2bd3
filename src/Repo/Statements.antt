-- ===== src/Repo/Statements.antt =====
-- The statements of database/sql on a table in any order.
use expire_share_api.Prelude.{
  ℕ, none, some, List, ◌≡◌, refl, ap, arith, if◌then◌else◌, Option-cases, inl, inr,
}
use expire_share_api.Domain.{File, sentinel, tx_done}
use expire_share_api.World.{
  Platform, World, Call, commit, begin_tx, Result, ok, err, error_of, ◌>>=◌,
}
use expire_share_api.Repo.{in_tx, query, begin, commit_work}
use expire_share_api.Repo.Uniform.{SameRows, SameTx-cases, kept, Agree-of, same_rows, Uniform}

module _ (p : Platform) where
  -- A statement outside a transaction.
  pub Uniform-query :
      {A : Type 0} (c : Call) (f : ℕ → List File → A)
      → ((now : ℕ) (rows rows' : List File) → SameRows p rows rows' → f now rows ≡ f now rows')
      → Uniform p (query c f)
  unfolding query
  Uniform-query c f h env w w' s = elim (Option-cases (env.fault c)) [
    | inl e ↦
        Agree-of p (ok (f (env.now c) w.rows), w) (ok (f (env.now c) w'.rows), w') (ground arith)
          (ground arith) (record { value = ap ok (h (env.now c) w.rows w'.rows s.rows); state = s })
    | inr (x, e) ↦
        Agree-of p (err (error_of x), w) (err (error_of x), w') (ground arith) (ground arith)
          (record { value = refl; state = s })
  ]

  -- A statement of the open transaction.
  pub Uniform-in_tx :
      {A : Type 0} (c : Call) (f : ℕ → List File → Result A × List File)
      → ((now : ℕ) (rows rows' : List File)
          → SameRows p rows rows'
          → ((f now rows).0 ≡ (f now rows').0) × SameRows p (f now rows).1 (f now rows').1)
      → Uniform p (in_tx c f)
  unfolding in_tx
  Uniform-in_tx c f h env w w' s = elim (SameTx-cases p w.tx w'.tx s.tx) [
    | inl (t, t') ↦
        Agree-of p (err (sentinel tx_done), w) (err (sentinel tx_done), w') (ground arith)
          (ground arith) (record { value = refl; state = s })
    | inr (r, r', t, t', q) ↦ elim (Option-cases (env.fault c)) [
      | inl e ↦
          let g = h (env.now c) r r' q in
          let done : List File → World → Result _ × World =
            λ x u. ((f (env.now c) x).0, record u { tx = some (f (env.now c) x).1 }) in
          Agree-of p (done r w) (done r' w') (ground arith) (ground arith)
            (record { value = g.0; state = same_rows p s s.rows g.1 })
      | inr (x, e) ↦
          Agree-of p (err (error_of x), w) (err (error_of x), w') (ground arith) (ground arith)
            (record { value = refl; state = s })
    ]
  ]

  abbrev opened : World → World
  opened w = record w { tx = some w.rows }

  pub Uniform-begin : Uniform p begin
  unfolding begin ◌>>=◌
  Uniform-begin env w w' s = elim (Option-cases (env.fault begin_tx)) [
    | inl e ↦
        Agree-of p (ok tt, opened w) (ok tt, opened w') (ground arith) (ground arith)
          (record { value = refl; state = same_rows p s s.rows s.rows })
    | inr (x, e) ↦
        Agree-of p (err (error_of x), w) (err (error_of x), w') (ground arith) (ground arith)
          (record { value = refl; state = s })
  ]

  abbrev committed : List File → World → World
  committed r w = record w { rows = r; tx = none }

  pub Uniform-commit_work : Uniform p commit_work
  unfolding commit_work
  Uniform-commit_work env w w' s = elim (SameTx-cases p w.tx w'.tx s.tx) [
    | inl (t, t') ↦
        Agree-of p (err (sentinel tx_done), w) (err (sentinel tx_done), w') (ground arith)
          (ground arith) (record { value = refl; state = s })
    | inr (r, r', t, t', q) ↦ elim (Option-cases (env.fault commit)) [
      | inl e ↦
          Agree-of p (ok tt, committed r w) (ok tt, committed r' w') (ground arith) (ground arith)
            (record { value = refl; state = same_rows p s q tt })
      | inr (x, e) ↦
          let left : List File → World → World =
            λ y u. committed (if env.commit_applied then y else u.rows) u in
          Agree-of p (err (error_of x), left r w) (err (error_of x), left r' w') (ground arith)
            (ground arith)
            (record { value = refl; state = same_rows p s (kept p env.commit_applied q s.rows) tt })
    ]
  ]
