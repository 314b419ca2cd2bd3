-- ===== src/Alias.antt =====
-- internal/lib/alias/alias.go: the random alias of a file. `words` are the results of rand.Int63,
-- call by call, and `fuel` bounds the loop.
pub mod Total
use Prim.Native.String
use expire_share_api.Prelude.{
  ℕ, zero, suc, ◌+◌, ◌/◌, ◌%◌, Char, String, Option, none, some, if◌then◌else◌, ltb, eqb,
}

-- letterBytes
abbrev pub letter_bytes : String
letter_bytes = "abcdefghijklmnopqrstuvwxyzABCDEFGHIJKLMNOPQRSTUVWXYZ0123456789"

-- len(letterBytes)
abbrev pub letter_count : ℕ
letter_count = 62

-- letterIdxMax: how many indices of six bits a word gives.
abbrev pub letter_idx_max : ℕ
letter_idx_max = 10

abbrev pub letter : ℕ → Char
letter idx = String.char_at letter_bytes idx

module _ (words : ℕ → ℕ) where
  -- The loop: `left` letters are to be found (`i + 1` in the source), and `next` is the number of
  -- words drawn. The text is filled from its end. An index of 62 or 63 gives no letter.
  unfoldable pub gen_loop : ℕ → ℕ → ℕ → ℕ → ℕ → String → Option String
  gen_loop zero left cache remain next found = none
  gen_loop (suc fuel) zero cache remain next found = some found
  gen_loop (suc fuel) (suc left) cache zero next found =
      let cache' = words next in
      let hit =
        gen_loop fuel left (cache' / 64) 9 (next + 1) (String.◌∷◌ (letter (cache' % 64)) found) in
      let miss = gen_loop fuel (suc left) (cache' / 64) 9 (next + 1) found in
      if ltb (cache' % 64) letter_count then hit else miss
  gen_loop (suc fuel) (suc left) cache (suc remain) next found =
      let hit =
        gen_loop fuel left (cache / 64) remain next (String.◌∷◌ (letter (cache % 64)) found) in
      let miss = gen_loop fuel (suc left) (cache / 64) remain next found in
      if ltb (cache % 64) letter_count then hit else miss

  -- Gen
  unfoldable pub gen : ℕ → ℕ → Option String
  unfolding gen_loop
  gen fuel length = gen_loop fuel length (words 0) letter_idx_max 1 String.[]
