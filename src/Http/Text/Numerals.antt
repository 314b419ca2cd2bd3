-- ===== src/Http/Text/Numerals.antt =====
-- Decimal numerals as the parsers of util.go and sizes.go read them: strconv.ParseInt gives a
-- numeral's value, and strings.TrimSpace leaves it alone.
use expire_share_api.Prelude.{
  ℕ, ◌+◌, ◌-◌, ◌*◌, ◌^◌, ◌<◌, Char, code, String, none, some, false, List, [], ◌∷◌, ◌≡◌, refl, ap,
  ◌∙◌, arith, if◌then◌else◌, ltb, pos,
}
use expire_share_api.Http.Text.{
  unsigned_from, unsigned, in_range, parse_int, trim_left, trim_right, cons_trimmed, trim_space,
  is_space,
}

pub data Digit : Type 0 where
  d0 d1 d2 d3 d4 d5 d6 d7 d8 d9 : Digit

abbrev pub char_of : Digit → Char
char_of d0 = "0"
char_of d1 = "1"
char_of d2 = "2"
char_of d3 = "3"
char_of d4 = "4"
char_of d5 = "5"
char_of d6 = "6"
char_of d7 = "7"
char_of d8 = "8"
char_of d9 = "9"

abbrev pub number_of : Digit → ℕ
number_of d0 = 0
number_of d1 = 1
number_of d2 = 2
number_of d3 = 3
number_of d4 = 4
number_of d5 = 5
number_of d6 = 6
number_of d7 = 7
number_of d8 = 8
number_of d9 = 9

-- Digits as a text, the highest first, with what stands behind them.
abbrev pub numeral : List Digit → String → String
numeral [] rest = rest
numeral (d ∷ ds) rest = String.◌∷◌ (char_of d) (numeral ds rest)

-- Their value, after those that are read.
abbrev pub value_from : ℕ → List Digit → ℕ
value_from n [] = n
value_from n (d ∷ ds) = value_from (n * 10 + number_of d) ds

pub code-char_of : (d : Digit) → (code (char_of d) ≡ 48 + number_of d) × (number_of d < 10)
code-char_of d0 = (refl, omega arith)
code-char_of d1 = (refl, omega arith)
code-char_of d2 = (refl, omega arith)
code-char_of d3 = (refl, omega arith)
code-char_of d4 = (refl, omega arith)
code-char_of d5 = (refl, omega arith)
code-char_of d6 = (refl, omega arith)
code-char_of d7 = (refl, omega arith)
code-char_of d8 = (refl, omega arith)
code-char_of d9 = (refl, omega arith)

unsigned_from-numeral :
    (n : ℕ) (ds : List Digit) → unsigned_from n (numeral ds "") ≡ some (value_from n ds)
unfolding unsigned_from
unsigned_from-numeral n [] = refl
unsigned_from-numeral n (d ∷ ds) =
    ground (arith, code-char_of d, unsigned_from-numeral (n * 10 + number_of d) ds)

-- strconv.ParseInt of a numeral.
pub parse_int-numeral :
    (bits : ℕ) (d : Digit) (ds : List Digit)
    → parse_int bits (numeral (d ∷ ds) "") ≡ (
        if ltb (value_from 0 (d ∷ ds)) (2 ^ (bits - 1))
        then some (pos (value_from 0 (d ∷ ds)))
        else none)
unfolding parse_int unsigned in_range
parse_int-numeral bits d ds = ground (arith, code-char_of d, unsigned_from-numeral 0 (d ∷ ds))

trim_right-numeral :
    (ds : List Digit) (c : Char) (rest : String)
    → trim_right (String.◌∷◌ c rest) ≡ String.◌∷◌ c rest
    → trim_right (numeral ds (String.◌∷◌ c rest)) ≡ numeral ds (String.◌∷◌ c rest)
unfolding trim_right
trim_right-numeral [] c rest e = e
trim_right-numeral (d ∷ []) c rest e = ap (λ x. cons_trimmed (char_of d) x) e
trim_right-numeral (d ∷ d' ∷ ds) c rest e =
    ap (λ x. cons_trimmed (char_of d) x) (trim_right-numeral (d' ∷ ds) c rest e)

no_space : (d : Digit) → is_space (char_of d) ≡ false
no_space d0 = refl
no_space d1 = refl
no_space d2 = refl
no_space d3 = refl
no_space d4 = refl
no_space d5 = refl
no_space d6 = refl
no_space d7 = refl
no_space d8 = refl
no_space d9 = refl

trim_left-numeral :
    (d : Digit) (rest : String)
    → trim_left (String.◌∷◌ (char_of d) rest) ≡ String.◌∷◌ (char_of d) rest
unfolding trim_left
trim_left-numeral d rest = rw (no_space d) refl

-- strings.TrimSpace of a numeral and what stands behind it, where that does not end in a space.
pub trim_space-numeral :
    (d : Digit) (ds : List Digit) (c : Char) (rest : String)
    → trim_right (String.◌∷◌ c rest) ≡ String.◌∷◌ c rest
    → trim_space (numeral (d ∷ ds) (String.◌∷◌ c rest)) ≡ numeral (d ∷ ds) (String.◌∷◌ c rest)
unfolding trim_space
trim_space-numeral d ds c rest e =
    ap trim_right (trim_left-numeral d (numeral ds (String.◌∷◌ c rest)))
    ∙ trim_right-numeral (d ∷ ds) c rest e
