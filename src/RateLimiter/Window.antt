-- ===== src/RateLimiter/Window.antt =====
-- The limiter as a function of the requests of one value: how many it lets through.
use expire_share_api.RateLimiter.Held.{Held, Held-step, Held-expire, first_step}
use expire_share_api.RateLimiter.Keys.{lookup-insert, lookup-remove, admitted}
use Prim.Native.Nat.{min}
use expire_share_api.Prelude.{
  ℕ, suc, ◌+◌, ◌-◌, ◌≤◌, ◌<◌, ◌≡◌, ◌≢◌, Bool, true, false, String, Option, none, some, List, [],
  ◌∷◌, eq_iff, arith, ltb, leb, All, length, Bool-cases, inl, inr, sym, ltb→lt, leb→le, leb→gt, ◌∙◌,
}
use expire_share_api.RateLimiter.{
  Params, Counter, Store, lookup, insert, incremented, expire, open_window, allow_script, answers,
}

module _ (ps : Params) (k : String) where
  expire-others :
      (j : String) (c : Counter) (now ttl t : ℕ) (m : Store)
      → k ≢ j
      → lookup j t (expire k c now ttl m) ≡ lookup j t m
  unfolding expire
  expire-others j c now ttl t m h = ground (
    arith,
    eq_iff k j,
    lookup-insert k j (record { count = c.count; expires = some (now + ttl) }) t m,
    lookup-remove k j t m,
  )

  insert-others :
      (j : String) (c : Counter) (t : ℕ) (m : Store)
      → k ≢ j
      → lookup j t (insert k c m) ≡ lookup j t m
  insert-others j c t m h = ground (arith, eq_iff k j, lookup-insert k j c t m)

  open_window-others :
      (j : String) (c : Counter) (now t : ℕ) (m : Store)
      → k ≢ j
      → lookup j t (open_window ps k c now m) ≡ lookup j t m
  unfolding open_window
  open_window-others j c now t m h =
      ground (arith, expire-others j c now ps.window t (insert k c m) h, insert-others j c t m h)

  -- A request for one key changes no other.
  pub allow_script-others :
      (j : String) (now t : ℕ) (m : Store)
      → k ≢ j
      → lookup j t (allow_script ps k now m).1 ≡ lookup j t m
  unfolding allow_script
  allow_script-others j now t m h =
      let c = incremented (lookup k now m) in
      ground (
        arith,
        open_window-others j c now t m h,
        expire-others j c now ps.block_duration t (open_window ps k c now m) h,
      )

  -- Requests before `bound`, with the block no shorter than what is left until then.
  abbrev Before : ℕ → List ℕ → Type 0
  Before bound ts = All (λ t. (t < bound) × (bound ≤ t + ps.block_duration)) ts

  admitted_step :
      (b : Bool) (n len : ℕ) (more : List Bool)
      → b ≡ leb (suc n) ps.max_attempts
      → admitted more ≡ min len (ps.max_attempts - suc n)
      → admitted (b ∷ more) ≡ min (suc len) (ps.max_attempts - n)
  admitted_step true n len more e h = omega (arith, h, leb→le (suc n) ps.max_attempts (sym e))
  admitted_step false n len more e h = omega (arith, h, leb→gt (suc n) ps.max_attempts (sym e))

  answers-Held :
      (ts : List ℕ) (n bound : ℕ) (m : Store)
      → Held ps k n bound m
      → 0 < n
      → Before bound ts
      → admitted (answers ps k ts m).0 ≡ min (length ts) (ps.max_attempts - n)
  unfolding answers
  answers-Held [] n bound m h p b = omega arith
  answers-Held (t ∷ ts) n bound m h p (b, more) =
      let s = Held-step ps k n bound t m h p b.0 b.1 in
      admitted_step _ n (length ts) _ s.0
        (answers-Held ts (suc n) bound (allow_script ps k t m).1 s.1 (omega arith) more)

  -- A key that no counter stands for, a first request, and further ones that come no earlier than
  -- it and before the window and the block that it opens are over: as many requests are allowed as
  -- there are, up to `max_attempts`.
  pub answers-limit :
      (t : ℕ) (ts : List ℕ) (m : Store)
      → lookup k t m ≡ none
      → 0 < ps.window
      → 0 < ps.block_duration
      → All (λ s. (t ≤ s) × (s < t + ps.window) × (s < t + ps.block_duration)) ts
      → admitted (answers ps k (t ∷ ts) m).0 ≡ min (length (t ∷ ts)) ps.max_attempts
  unfolding answers
  answers-limit t ts m h pw pb all =
      let bound = t + min ps.window ps.block_duration in
      let s = first_step ps k bound t m h (omega arith) (omega arith) (omega arith) in
      admitted_step _ 0 (length ts) _ s.0
        (answers-Held ts 1 bound (allow_script ps k t m).1 s.1 (omega arith) (before ts all))
      ∙ omega arith
    where
      before :
          (us : List ℕ)
          → All (λ s. (t ≤ s) × (s < t + ps.window) × (s < t + ps.block_duration)) us
          → Before (t + min ps.window ps.block_duration) us
      before [] a = tt
      before (u ∷ us) (a, more) = ((omega arith, omega arith), before us more)

  incremented-pos : (o : Option Counter) → 0 < (incremented o).count
  incremented-pos none = omega arith
  incremented-pos (some c) = omega arith

  true_ne_false : true ≢ false
  true_ne_false h = cc

  refused_store :
      (now : ℕ) (m : Store)
      → (allow_script ps k now m).0 ≡ false
      → 0 < ps.block_duration
      → (n : ℕ) × (ps.max_attempts < n)
        × (0 < n)
        × Held ps k n (now + ps.block_duration) (allow_script ps k now m).1
  unfolding allow_script
  refused_store now m h pb =
      let c = incremented (lookup k now m) in
      elim (Bool-cases (ltb ps.max_attempts c.count)) [
        | inl over ↦ rw over (
          c.count,
          ltb→lt ps.max_attempts c.count over,
          incremented-pos (lookup k now m),
          Held-expire ps k c _ now ps.block_duration _ pb (omega arith),
        )
        | inr under ↦ absurd (true_ne_false (rw under at h))
      ]

  -- A request that is refused blocks the key: every request of the next `block_duration` seconds is
  -- refused, too.
  pub refused_until :
      (now t : ℕ) (m : Store)
      → (allow_script ps k now m).0 ≡ false
      → 0 < ps.block_duration
      → now ≤ t
      → t < now + ps.block_duration
      → (allow_script ps k t (allow_script ps k now m).1).0 ≡ false
  refused_until now t m h pb after before =
      let (n, over, p, held) = refused_store now m h pb in
      (Held-step ps k n (now + ps.block_duration) t _ held p before (omega arith)).0 ∙ ground arith
