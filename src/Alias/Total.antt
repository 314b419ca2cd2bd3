-- ===== src/Alias/Total.antt =====
-- Gen against its draws: what it makes of any random words, and after how many steps it returns.
use Prim.Native.String
use expire_share_api.Prelude.{
  ℕ, zero, suc, ◌+◌, ◌*◌, ◌/◌, ◌%◌, ◌<◌, ◌≤◌, ◌≡◌, refl, ◌∙◌, String, Option, none, some, List, [],
  ◌∷◌, arith, ltb, ltb→lt, Bool-cases, length, take, ◌⊎◌, inl, inr, if◌then◌else◌,
}
use text.Mathlib.TextLemmas.{length-cons, length-nil}
use expire_share_api.Alias.{letter, letter_count, gen_loop, gen}

-- Every character is a letter of letterBytes.
abbrev pub Letters : String → Type 0
Letters String.[] = Unit
Letters (String.◌∷◌ c s) = ((i : ℕ) × (i < letter_count) × (c ≡ letter i)) × Letters s

-- A word without its lowest `i` indices of six bits.
abbrev pub shifted : ℕ → ℕ → ℕ
shifted x zero = x
shifted x (suc i) = shifted x i / 64

abbrev Small : List ℕ → Type 0
Small [] = Unit
Small (i ∷ is) = (i < letter_count) × Small is

-- The text that ends with the letters of the indices, the first index last, in front of `found`.
abbrev pub spelled : List ℕ → String → String
spelled [] found = found
spelled (i ∷ is) found = spelled is (String.◌∷◌ (letter i) found)

spelled-Letters :
    (n : ℕ) (is : List ℕ) (found : String)
    → Small is
    → Letters found
    → Letters (spelled (take n is) found)
spelled-Letters zero is found s l = l
spelled-Letters (suc n) [] found s l = l
spelled-Letters (suc n) (i ∷ is) found s l = spelled-Letters n is _ s.1 ((i, s.0, refl), l)

count-spelled :
    (n : ℕ) (is : List ℕ) (found : String)
    → n ≤ length is
    → String.count (spelled (take n is) found) ≡ n + String.count found
count-spelled zero is found h = omega arith
count-spelled (suc n) [] found h = ground arith
count-spelled (suc n) (i ∷ is) found h = omega (
  arith,
  count-spelled n is (String.◌∷◌ (letter i) found) (omega arith),
  length-cons (letter i) found,
)

-- The text of the first `n` indices, if there are so many.
abbrev first_letters : ℕ → List ℕ → String → Option String
first_letters zero is found = some found
first_letters (suc n) [] found = none
first_letters (suc n) (i ∷ is) found = first_letters n is (String.◌∷◌ (letter i) found)

first_letters-cases :
    (n : ℕ) (is : List ℕ) (found : String)
    → ((n ≤ length is) × (first_letters n is found ≡ some (spelled (take n is) found)))
      ⊎ ((length is < n) × (first_letters n is found ≡ none))
first_letters-cases zero is found = inl (omega arith, refl)
first_letters-cases (suc n) [] found = inr (omega arith, refl)
first_letters-cases (suc n) (i ∷ is) found =
    elim (first_letters-cases n is (String.◌∷◌ (letter i) found)) [
      | inl h ↦ inl (omega (arith, h.0), h.1)
      | inr h ↦ inr (omega (arith, h.0), h.1)
    ]

module _ (words : ℕ → ℕ) where
  -- The k-th index that is drawn: each word gives ten, from its low end on.
  abbrev pub draw : ℕ → ℕ
  draw k = shifted (words (k / 10)) (k % 10) % 64

  -- The indices of letters among `m` draws from the k-th on.
  abbrev pub hits : ℕ → ℕ → List ℕ
  hits k zero = []
  hits k (suc m) =
      let rest = hits (suc k) m in if ltb (draw k) letter_count then draw k ∷ rest else rest

  hits-Small : (k m : ℕ) → Small (hits k m)
  hits-Small k zero = tt
  hits-Small k (suc m) = elim (Bool-cases (ltb (draw k) letter_count)) [
    | inl small ↦ rw small (ltb→lt _ _ small, hits-Small (suc k) m)
    | inr large ↦ rw large (hits-Small (suc k) m)
  ]

  draw_lem : (q r : ℕ) → r < 10 → draw (10 * q + r) ≡ shifted (words q) r % 64
  draw_lem q r h =
      let a : (10 * q + r) / 10 ≡ q = omega arith in
      let b : (10 * q + r) % 10 ≡ r = omega arith in rw (a, b) refl

  gen_loop-hits :
      (m left q r remain : ℕ) (found : String)
      → r + remain ≡ 10
      → gen_loop words (suc m) left (shifted (words q) r) remain (suc q) found
        ≡ first_letters left (hits (10 * q + r) m) found
  unfolding gen_loop
  gen_loop-hits m zero q r remain found h = refl
  gen_loop-hits zero (suc left) q r zero found h = ground arith
  gen_loop-hits zero (suc left) q r (suc remain) found h = ground arith
  gen_loop-hits (suc m) (suc left) q r zero found h =
      let d : draw (10 * q + r) ≡ words (suc q) % 64 = draw_next q r (omega arith) in
      let k : suc (10 * q + r) ≡ 10 * suc q + 1 = omega arith in
      ground (
        arith,
        d,
        k,
        gen_loop-hits m left (suc q) 1 9 (String.◌∷◌ (letter (words (suc q) % 64)) found) refl,
        gen_loop-hits m (suc left) (suc q) 1 9 found refl,
      )
    where
      draw_next : (q r : ℕ) → r ≡ 10 → draw (10 * q + r) ≡ words (suc q) % 64
      draw_next q r e =
          let a : (10 * q + r) / 10 ≡ suc q = omega arith in
          let b : (10 * q + r) % 10 ≡ 0 = omega arith in rw (a, b) refl
  gen_loop-hits (suc m) (suc left) q r (suc remain) found h =
      let d = draw_lem q r (omega arith) in
      let k : suc (10 * q + r) ≡ 10 * q + suc r = omega arith in
      ground (
        arith,
        d,
        k,
        gen_loop-hits m left q (suc r) remain (String.◌∷◌ (letter (shifted (words q) r % 64)) found)
            (omega arith),
        gen_loop-hits m (suc left) q (suc r) remain found (omega arith),
      )

  -- Whatever the random words are, on fuel `m + 1`: where at least `n` of the first `m` draws are
  -- indices of letters, Gen returns, and the text has `n` characters, all of them from letterBytes:
  -- those of the first `n` such draws, the first draw last. Where fewer are, `m` steps do not end the
  -- loop. A draw is six bits of a word, ten of them in each word, from its low end on.
  pub gen-hits :
      (m n : ℕ)
      → ((n ≤ length (hits 0 m))
          × (s : String) × (gen words (suc m) n ≡ some s)
          × (s ≡ spelled (take n (hits 0 m)) "")
          × (String.count s ≡ n)
          × Letters s)
        ⊎ ((length (hits 0 m) < n) × (gen words (suc m) n ≡ none))
  unfolding gen
  gen-hits m n =
      let e = gen_loop-hits m n 0 0 10 "" refl in
      elim (first_letters-cases n (hits 0 m) "") [
        | inl h ↦ inl (
          h.0,
          _,
          e ∙ h.1,
          refl,
          omega (arith, count-spelled n (hits 0 m) "" h.0, length-nil),
          spelled-Letters n (hits 0 m) "" (hits-Small 0 m) tt,
        )
        | inr h ↦ inr (h.0, e ∙ h.1)
      ]
