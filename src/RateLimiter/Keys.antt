-- ===== src/RateLimiter/Keys.antt =====
-- The store of counters as a map, and the keys of the counters.
use text.Mathlib.TextLemmas.{append_cancel_left}
use expire_share_api.Prelude.{
  ℕ, suc, ◌<◌, ◌≡◌, Bool, true, false, String, none, some, List, [], ◌∷◌, ◌==◌, eq_iff, arith,
  if◌then◌else◌, eqb,
}
use expire_share_api.RateLimiter.{Params, Counter, Store, lookup, insert, remove, key_of, is_live}

pub lookup-insert :
    (k j : String) (c : Counter) (now : ℕ) (m : Store)
    → lookup j now (insert k c m)
      ≡ (if k == j then (if is_live now c.expires then some c else none) else lookup j now m)
unfolding lookup insert
lookup-insert k j c now [] = ground (arith, eq_iff k j)
lookup-insert k j c now ((i, d) ∷ m) =
    ground (arith, eq_iff k j, eq_iff i k, eq_iff i j, lookup-insert k j c now m)

pub lookup-remove :
    (k j : String) (now : ℕ) (m : Store)
    → lookup j now (remove k m) ≡ (if k == j then none else lookup j now m)
unfolding lookup remove
lookup-remove k j now [] = ground (arith, eq_iff k j)
lookup-remove k j now ((i, d) ∷ m) =
    ground (arith, eq_iff k j, eq_iff i k, eq_iff i j, lookup-remove k j now m)

pub neq_zero : (n : ℕ) → 0 < n → eqb n 0 ≡ false
neq_zero n h = ground arith

-- Two values have two keys.
pub key_of-injective : (ps : Params) (a b : String) → key_of ps a ≡ key_of ps b → a ≡ b
unfolding key_of
key_of-injective ps a b h =
    append_cancel_left ":" a b (append_cancel_left ps.field _ _ (append_cancel_left "rate:" _ _ h))

-- How many requests were let through.
abbrev pub admitted : List Bool → ℕ
admitted [] = 0
admitted (true ∷ bs) = suc (admitted bs)
admitted (false ∷ bs) = admitted bs
