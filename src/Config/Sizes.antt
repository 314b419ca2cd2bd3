-- ===== src/Config/Sizes.antt =====
-- ToBytes of internal/lib/sizes/sizes.go: what a decimal numeral with a unit behind it means.
use expire_share_api.Prelude.{
  ℕ, ◌*◌, ◌^◌, ◌<◌, Char, String, none, some, Bool, true, false, List, [], ◌∷◌, ◌≡◌, refl, ap, ◌∙◌,
  arith, if◌then◌else◌, ltb, pos, lt→ltb,
}
use expire_share_api.Http.Text.{trim_right, lower_eq}
use expire_share_api.Http.Text.Numerals.{
  Digit, code-char_of, numeral, value_from, parse_int-numeral, trim_space-numeral,
}
use expire_share_api.Config.{
  to_bytes, span_digits, unit_sizes, unit_index, wrap_int64, number_and_unit, sized,
}

-- The units of the file, and how many bytes each stands for.
pub data SizeUnit : Type 0 where
  bytes kilobytes megabytes gigabytes terabytes : SizeUnit

abbrev pub unit_head : SizeUnit → Char
unit_head bytes = "b"
unit_head kilobytes = "k"
unit_head megabytes = "m"
unit_head gigabytes = "g"
unit_head terabytes = "t"

abbrev pub unit_tail : SizeUnit → String
unit_tail bytes = ""
unit_tail _ = "b"

abbrev pub factor : SizeUnit → ℕ
factor bytes = 1
factor kilobytes = 1024
factor megabytes = 1048576
factor gigabytes = 1073741824
factor terabytes = 1099511627776

abbrev unit_text : SizeUnit → String
unit_text u = String.◌∷◌ (unit_head u) (unit_tail u)

abbrev position : SizeUnit → ℕ
position bytes = 0
position kilobytes = 1
position megabytes = 2
position gigabytes = 3
position terabytes = 4

unit_index-unit : (u : SizeUnit) → unit_index 0 unit_sizes (unit_text u) ≡ some (position u)
unfolding unit_index lower_eq
unit_index-unit bytes = refl
unit_index-unit kilobytes = refl
unit_index-unit megabytes = refl
unit_index-unit gigabytes = refl
unit_index-unit terabytes = refl

trim_right-unit : (u : SizeUnit) → trim_right (unit_text u) ≡ unit_text u
unfolding trim_right
trim_right-unit bytes = refl
trim_right-unit kilobytes = refl
trim_right-unit megabytes = refl
trim_right-unit gigabytes = refl
trim_right-unit terabytes = refl

span_digits-unit : (u : SizeUnit) → span_digits (unit_text u) ≡ ("", unit_text u)
unfolding span_digits
span_digits-unit bytes = refl
span_digits-unit kilobytes = refl
span_digits-unit megabytes = refl
span_digits-unit gigabytes = refl
span_digits-unit terabytes = refl

span_digits-numeral :
    (ds : List Digit) (u : SizeUnit)
    → span_digits (numeral ds (unit_text u)) ≡ (numeral ds "", unit_text u)
unfolding span_digits
span_digits-numeral [] u = span_digits-unit u
span_digits-numeral (d ∷ ds) u = ground (arith, code-char_of d, span_digits-numeral ds u)

power : (u : SizeUnit) → 2 ^ (10 * position u) ≡ factor u
power bytes = refl
power kilobytes = refl
power megabytes = refl
power gigabytes = refl
power terabytes = refl

sized-if :
    (b : Bool) (n : ℕ) (u : SizeUnit)
    → sized (if b then some (pos n) else none) (some (position u))
      ≡ (if b then some (wrap_int64 (n * factor u)) else none)
sized-if true n u = ap (λ x. some (wrap_int64 (n * x))) (power u)
sized-if false n u = refl

below : (n : ℕ) (u : SizeUnit) → n * factor u < 2 ^ 63 → n < 2 ^ 63
below n bytes h = omega arith
below n kilobytes h = omega arith
below n megabytes h = omega arith
below n gigabytes h = omega arith
below n terabytes h = omega arith

wrap_small : (m : ℕ) → m < 2 ^ 63 → wrap_int64 m ≡ pos m
wrap_small m h = ground arith

-- A decimal numeral with a unit behind it: ToBytes fails where the number alone is no int64, and
-- gives the product, wrapped to an int64, elsewhere.
pub to_bytes-numeral :
    (d : Digit) (ds : List Digit) (u : SizeUnit)
    → let n = value_from 0 (d ∷ ds) in
      to_bytes (numeral (d ∷ ds) (String.◌∷◌ (unit_head u) (unit_tail u)))
      ≡ (if ltb n (2 ^ 63) then some (wrap_int64 (n * factor u)) else none)
unfolding to_bytes
to_bytes-numeral d ds u =
    let n = value_from 0 (d ∷ ds) in
    let unit = unit_index 0 unit_sizes (unit_text u) in
    ap (λ x. number_and_unit (span_digits x))
      (trim_space-numeral d ds (unit_head u) (unit_tail u) (trim_right-unit u))
    ∙ ap number_and_unit (span_digits-numeral (d ∷ ds) u)
    ∙ ap (λ x. sized x unit) (parse_int-numeral 64 d ds)
    ∙ ap (λ i. sized (if ltb n (2 ^ 63) then some (pos n) else none) i) (unit_index-unit u)
    ∙ sized-if (ltb n (2 ^ 63)) n u

-- A size that fits: what ToBytes reads of a decimal numeral and a unit is the number of bytes that
-- they say, where that is an int64.
pub to_bytes_exact :
    (d : Digit) (ds : List Digit) (u : SizeUnit)
    → value_from 0 (d ∷ ds) * factor u < 2 ^ 63
    → to_bytes (numeral (d ∷ ds) (String.◌∷◌ (unit_head u) (unit_tail u)))
      ≡ some (pos (value_from 0 (d ∷ ds) * factor u))
to_bytes_exact d ds u h =
    let n = value_from 0 (d ∷ ds) in
    to_bytes-numeral d ds u
    ∙ ap (λ b. if b then some (wrap_int64 (n * factor u)) else none)
        (lt→ltb n (2 ^ 63) (below n u h))
    ∙ ap some (wrap_small (n * factor u) h)
