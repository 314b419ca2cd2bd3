-- ===== src/RateLimiter/Held.antt =====
-- The counter of a key as it stands between requests of one value.
use expire_share_api.RateLimiter.Keys.{lookup-insert, neq_zero}
use expire_share_api.Prelude.{
  ℕ, suc, ◌+◌, ◌≤◌, ◌<◌, ◌≡◌, refl, true, false, String, none, some, [], ◌∷◌, eq_iff, arith,
  if◌then◌else◌, ltb, leb, Bool-cases, inl, inr, sym, lt→ltb,
}
use expire_share_api.RateLimiter.{
  Params, Counter, Store, lookup, insert, expire, open_window, allow_script, is_live,
}

module _ (ps : Params) (k : String) where
  lookup-is_live :
      (t : ℕ) (m : Store) (c : Counter) → lookup k t m ≡ some c → is_live t c.expires ≡ true
  unfolding lookup
  lookup-is_live t [] c h = cc
  lookup-is_live t ((j, d) ∷ m) c h = ground (arith, lookup-is_live t m c)

  -- The counter of the key stands at `n` until `bound`.
  pub record Held (n bound : ℕ) (m : Store) : Type 0 where
    pub counter : Counter
    pub count : counter.count ≡ n
    pub until_bound : (t : ℕ) → t < bound → lookup k t m ≡ some counter

  bumped : Counter → Counter
  bumped c = record c { count = c.count + 1 }

  allow_script-held :
      (now : ℕ) (m : Store) (c : Counter)
      → lookup k now m ≡ some c
      → 0 < c.count
      → allow_script ps k now m ≡ (
          if ltb ps.max_attempts (c.count + 1)
          then (false, expire k (bumped c) now ps.block_duration (insert k (bumped c) m))
          else (true, insert k (bumped c) m))
  unfolding allow_script open_window bumped
  allow_script-held now m c h pos_n = ground arith

  Held-insert :
      (c : Counter) (bound : ℕ) (m : Store)
      → ((t : ℕ) → t < bound → is_live t c.expires ≡ true)
      → Held c.count bound (insert k c m)
  Held-insert c bound m live = record {
    counter = c;
    count = refl;
    until_bound = λ t b. ground (arith, eq_iff k k, lookup-insert k k c t m, live t b);
  }

  pub Held-expire :
      (c : Counter) (bound now ttl : ℕ) (m : Store)
      → 0 < ttl
      → bound ≤ now + ttl
      → Held c.count bound (expire k c now ttl m)
  unfolding expire
  Held-expire c bound now ttl m p h = rw (neq_zero ttl p) (
      Held-insert (record c { expires = some (now + ttl) }) bound m
        (λ t b. lt→ltb t (now + ttl) (omega arith)))

  -- One request while the counter is held.
  pub Held-step :
      (n bound now : ℕ) (m : Store)
      → Held n bound m
      → 0 < n
      → now < bound
      → bound ≤ now + ps.block_duration
      → ((allow_script ps k now m).0 ≡ leb (suc n) ps.max_attempts)
        × Held (suc n) bound (allow_script ps k now m).1
  unfolding bumped
  Held-step n bound now m h pos_n before short =
      let c = h.counter in
      let d = bumped c in
      let size : d.count ≡ suc n = omega (arith, h.count) in
      let live : (t : ℕ) → t < bound → is_live t c.expires ≡ true =
        λ t b. lookup-is_live t m c (h.until_bound t b) in
      let e = allow_script-held now m c (h.until_bound now before) (omega (arith, h.count)) in
      elim (Bool-cases (ltb ps.max_attempts (c.count + 1))) [
        | inl over ↦
            rw (e, over)
              (
                ground (arith, h.count),
                rw (sym size)
                    (Held-expire d bound now ps.block_duration (insert k d m) (omega arith) short),
              )
        | inr under ↦
            rw (e, under) (ground (arith, h.count), rw (sym size) (Held-insert d bound m live))
      ]

  allow_script-absent :
      (now : ℕ) (m : Store)
      → lookup k now m ≡ none
      → let c : Counter = record { count = 1; expires = none } in
        let opened = expire k c now ps.window (insert k c m) in
        allow_script ps k now m ≡ (
          if ltb ps.max_attempts 1
          then (false, expire k c now ps.block_duration opened)
          else (true, opened))
  unfolding allow_script open_window
  allow_script-absent now m h = ground arith

  -- The first request of a window.
  pub first_step :
      (bound now : ℕ) (m : Store)
      → lookup k now m ≡ none
      → now < bound
      → bound ≤ now + ps.window
      → bound ≤ now + ps.block_duration
      → ((allow_script ps k now m).0 ≡ leb 1 ps.max_attempts)
        × Held 1 bound (allow_script ps k now m).1
  first_step bound now m h before long short =
      let c : Counter = record { count = 1; expires = none } in
      let e = allow_script-absent now m h in
      let opened = expire k c now ps.window (insert k c m) in
      elim (Bool-cases (ltb ps.max_attempts 1)) [
        | inl over ↦
            rw (e, over)
              (ground arith, Held-expire c bound now ps.block_duration opened (omega arith) short)
        | inr under ↦
            rw (e, under)
              (ground arith, Held-expire c bound now ps.window (insert k c m) (omega arith) long)
      ]
