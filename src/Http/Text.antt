-- ===== src/Http/Text.antt =====
-- internal/delivery/util/util.go and what the delivery reads of the packages strings, strconv and
-- net: the parsing of headers, query values and addresses.
pub mod Numerals
use expire_share_api.Prelude.{
  ℕ, ◌+◌, ◌-◌, ◌*◌, ◌/◌, ◌%◌, ◌^◌, Char, code, String, Option, none, some, Bool, true, false, not,
  ◌&&◌, ◌||◌, if◌then◌else◌, ltb, leb, eqb, ℤ, pos, negsuc, ltb_ℤ, pos_part,
}

-- A character between '0' and '9'.
abbrev is_digit : Char → Bool
is_digit c = leb 48 (code c) && leb (code c) 57

-- The value of a text of digits, after those that are read.
unsigned_from : ℕ → String → Option ℕ
unsigned_from n String.[] = some n
unsigned_from n (String.◌∷◌ c s) =
    let rest = unsigned_from (n * 10 + (code c - 48)) s in if is_digit c then rest else none

unsigned : String → Option ℕ
unsigned String.[] = none
unsigned (String.◌∷◌ c s) = unsigned_from 0 (String.◌∷◌ c s)

-- The range of a signed integer of `bits` bits.
in_range : ℕ → Bool → Option ℕ → Option ℤ
in_range bits negative none = none
in_range bits false (some n) = if ltb n (2 ^ (bits - 1)) then some (pos n) else none
in_range bits true (some n) =
    if ltb (2 ^ (bits - 1)) n then none else if eqb n 0 then some (pos 0) else some (negsuc (n - 1))

-- strconv.ParseInt(s, 10, bits), and strconv.Atoi for 64 bits.
unfoldable pub parse_int : ℕ → String → Option ℤ
unfolding unsigned unsigned_from in_range
parse_int bits String.[] = none
parse_int bits (String.◌∷◌ c s) =
    if eqb (code c) 43
    then in_range bits false (unsigned s)
    else if eqb (code c) 45
    then in_range bits true (unsigned s)
    else in_range bits false (unsigned (String.◌∷◌ c s))

-- What ScanPaginationArgs sets `page` to.
abbrev at_least_one : Option ℤ → ℕ → ℕ
at_least_one none default = default
at_least_one (some n) default = if ltb_ℤ n (pos 1) then default else pos_part n

-- ScanPaginationArgs: the page, and the limit.
unfoldable pub scan_pagination_args : String → String → ℕ × ℕ
unfolding parse_int
scan_pagination_args page limit =
    let limit_read = at_least_one (parse_int 64 limit) 10 in
    (at_least_one (parse_int 64 page) 1, if ltb 100 limit_read then 100 else limit_read)

-- The numbers that TimeString prints as "%02dh%02dm%02ds". A duration is in nanoseconds, and Go's
-- division truncates towards zero.
pub record TimeText : Type 0 where
  pub hours : ℤ
  pub minutes : ℤ
  pub seconds : ℤ

abbrev truncated : (ℕ → ℕ) → ℤ → ℤ
truncated f (pos n) = pos (f n)
truncated f (negsuc n) = if eqb (f (n + 1)) 0 then pos 0 else negsuc (f (n + 1) - 1)

-- TimeString
unfoldable pub time_string : ℤ → TimeText
time_string d = record {
  hours = truncated (λ n. n / 3600000000000) d;
  minutes = truncated (λ n. n / 60000000000 % 60) d;
  seconds = truncated (λ n. n / 1000000000 % 60) d;
}

-- Whether a character occurs.
contains : ℕ → String → Bool
contains x String.[] = false
contains x (String.◌∷◌ c s) = let rest = contains x s in eqb (code c) x || rest

-- What stands before and after the first occurrence of a character.
unfoldable pub split_first : ℕ → String → Option (String × String)
split_first x String.[] = none
split_first x (String.◌∷◌ c s) =
    let rest = split_first x s in
    if eqb (code c) x
    then some (String.[], s)
    else elim rest [ none ↦ none | some (a, b) ↦ some (String.◌∷◌ c a, b) ]

-- The same for the last occurrence.
split_last : ℕ → String → Option (String × String)
split_last x String.[] = none
split_last x (String.◌∷◌ c s) = elim (split_last x s) [
  | some (a, b) ↦ some (String.◌∷◌ c a, b)
  | none ↦ if eqb (code c) x then some (String.[], s) else none
]

-- net.SplitHostPort of "[host]:port", after the first bracket.
split_brackets : String → Option String
unfolding split_first contains
split_brackets s = elim (split_first 93 s) [
  | none ↦ none
  | some (host, String.[]) ↦ none
  | some (host, String.◌∷◌ c port) ↦
      if not (eqb (code c) 58)
        || contains 58 port
        || contains 91 host
        || contains 91 port
        || contains 93 port
      then none
      else some host
]

-- net.SplitHostPort of "host:port".
split_plain : String → Option String
unfolding split_last contains
split_plain s = elim (split_last 58 s) [
  | none ↦ none
  | some (host, port) ↦
      if contains 58 host || contains 91 s || contains 93 s then none else some host
]

split_host_port : String → Option String
unfolding split_brackets split_plain
split_host_port String.[] = none
split_host_port (String.◌∷◌ c s) =
    if eqb (code c) 91 then split_brackets s else split_plain (String.◌∷◌ c s)

-- ExtractIP
unfoldable pub extract_ip : String → String
unfolding split_host_port
extract_ip remote_addr = elim (split_host_port remote_addr) [
  | none ↦ remote_addr
  | some host ↦ host
]

-- unicode.IsSpace
abbrev is_space : Char → Bool
is_space c =
    let n = code c in
    leb 9 n && leb n 13
    || eqb n 32
    || eqb n 133
    || eqb n 160
    || eqb n 5760
    || leb 8192 n && leb n 8202
    || eqb n 8232
    || eqb n 8233
    || eqb n 8239
    || eqb n 8287
    || eqb n 12288

trim_left : String → String
trim_left String.[] = String.[]
trim_left (String.◌∷◌ c s) = let rest = trim_left s in if is_space c then rest else String.◌∷◌ c s

abbrev cons_trimmed : Char → String → String
cons_trimmed c String.[] = if is_space c then String.[] else String.◌∷◌ c String.[]
cons_trimmed c (String.◌∷◌ d s) = String.◌∷◌ c (String.◌∷◌ d s)

unfoldable pub trim_right : String → String
trim_right String.[] = String.[]
trim_right (String.◌∷◌ c s) = cons_trimmed c (trim_right s)

-- strings.TrimSpace
unfoldable pub trim_space : String → String
unfolding trim_left trim_right
trim_space s = trim_right (trim_left s)

-- unicode.ToLower, on the characters that it takes to the letters a to z.
abbrev lower : ℕ → ℕ
lower n =
    if leb 65 n && leb n 90
    then n + 32
    else if eqb n 8490
    then 107
    else if eqb n 304
    then 105
    else n

-- strings.ToLower(s) == t, where t has only small letters and digits.
unfoldable pub lower_eq : String → String → Bool
lower_eq String.[] String.[] = true
lower_eq String.[] (String.◌∷◌ d t) = false
lower_eq (String.◌∷◌ c s) String.[] = false
lower_eq (String.◌∷◌ c s) (String.◌∷◌ d t) =
    let rest = lower_eq s t in eqb (lower (code c)) (code d) && rest

-- extractBearerToken of middlewares/auth.go
unfoldable pub extract_bearer_token : String → String
unfolding trim_space split_first lower_eq
extract_bearer_token header = elim (split_first 32 header) [
  | none ↦ ""
  | some (scheme, token) ↦ if lower_eq scheme "bearer" then trim_space token else ""
]
