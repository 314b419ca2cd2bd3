-- ===== src/Config.antt =====
-- internal/lib/sizes/sizes.go and setPermissionsConfig of internal/config/config.go: sizes that are
-- written with a unit. The text of an error is left out.
pub mod Load
pub mod Sizes
use expire_share_api.Prelude.{
  ℕ, ◌+◌, ◌-◌, ◌*◌, ◌%◌, ◌^◌, Char, code, String, Option, none, some, Bool, ◌&&◌, List, [], ◌∷◌,
  if◌then◌else◌, ltb, leb, ℤ, pos, negsuc,
}
use expire_share_api.Http.Text.{parse_int, trim_space, lower_eq}

-- unitSizes
abbrev pub unit_sizes : List String
unit_sizes = "b" ∷ "kb" ∷ "mb" ∷ "gb" ∷ "tb" ∷ []

abbrev pub is_digit : Char → Bool
is_digit c = leb 48 (code c) && leb (code c) 57

-- The digits that a text begins with, and the rest: the loop over `lastNumberIndex`.
unfoldable pub span_digits : String → String × String
span_digits String.[] = (String.[], String.[])
span_digits (String.◌∷◌ c s) =
    let (digits, rest) = span_digits s in
    if is_digit c then (String.◌∷◌ c digits, rest) else (String.[], String.◌∷◌ c s)

-- slices.Index(unitSizes, unit), from the index given on.
unfoldable pub unit_index : ℕ → List String → String → Option ℕ
unit_index i [] unit = none
unit_index i (u ∷ us) unit = if lower_eq unit u then some i else unit_index (i + 1) us unit

-- An int64 product wraps.
abbrev pub wrap_int64 : ℕ → ℤ
wrap_int64 n = let m = n % 2 ^ 64 in if ltb m (2 ^ 63) then pos m else negsuc (2 ^ 64 - m - 1)

abbrev pub sized : Option ℤ → Option ℕ → Option ℤ
sized (some (pos n)) (some i) = some (wrap_int64 (n * 2 ^ (10 * i)))
sized _ _ = none

-- A text without digits in front, or with nothing behind them, is invalid.
abbrev pub number_and_unit : String × String → Option ℤ
number_and_unit (String.[], unit) = none
number_and_unit (String.◌∷◌ c digits, String.[]) = none
number_and_unit (String.◌∷◌ c digits, String.◌∷◌ d unit) =
    sized (parse_int 64 (String.◌∷◌ c digits)) (unit_index 0 unit_sizes (String.◌∷◌ d unit))

-- ToBytes
unfoldable pub to_bytes : String → Option ℤ
unfolding span_digits unit_index parse_int lower_eq
to_bytes value = number_and_unit (span_digits (trim_space value))

abbrev both_sizes : Option ℤ → Option ℤ → Option (ℤ × ℤ)
both_sizes (some a) (some b) = some (a, b)
both_sizes _ _ = none

-- setPermissionsConfig: the two sizes in bytes, for users and for VIPs.
unfoldable pub set_permissions_config : String → String → Option (ℤ × ℤ)
unfolding to_bytes
set_permissions_config user vip = both_sizes (to_bytes user) (to_bytes vip)
