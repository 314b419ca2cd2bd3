-- ===== src/Config/Load/Origins.antt =====
-- The origins that CORS allows, from the text of CORS_ALLOWED_ORIGINS.
use Prim.Native.String
use text.Mathlib.TextLemmas.{cons-append, nil-append}
use text.Mathlib.TextEquality.{Char-path}
use expire_share_api.Prelude.{
  String, Char, code, Bool, true, false, List, [], ◌∷◌, ◌≡◌, refl, ap, sym, ◌∙◌, arith, eqb,
  if◌then◌else◌, map, All, Bool-cases, inl, inr,
}
use expire_share_api.World.{ok}
use expire_share_api.Http.Text.{trim_space}
use expire_share_api.Config.Load.{
  Config, Surroundings, load, split_commas, cons_first, join_commas, configured,
}

abbrev comma : Char
comma = ","

-- Whether a text has a comma.
abbrev pub has_comma : String → Bool
has_comma String.[] = false
has_comma (String.◌∷◌ c s) = if eqb (code c) 44 then true else has_comma s

abbrev Filled : List String → Type 0
Filled [] = ⊥
Filled (s ∷ more) = Unit

cons_first-Filled : (c : Char) (parts : List String) → Filled (cons_first c parts)
unfolding cons_first
cons_first-Filled c [] = tt
cons_first-Filled c (s ∷ more) = tt

split_commas-Filled : (s : String) → Filled (split_commas s)
unfolding split_commas cons_first
split_commas-Filled String.[] = tt
split_commas-Filled (String.◌∷◌ c s) = elim (Bool-cases (eqb (code c) 44)) [
  | inl e ↦ rw e tt
  | inr e ↦ rw e (cons_first-Filled c (split_commas s))
]

join-cons_first :
    (c : Char) (parts : List String)
    → join_commas (cons_first c parts) ≡ String.◌∷◌ c (join_commas parts)
unfolding join_commas cons_first
join-cons_first c [] = refl
join-cons_first c (s ∷ []) = refl
join-cons_first c (s ∷ t ∷ more) = cons-append c s _

join-empty :
    (c : Char) (parts : List String)
    → code c ≡ 44
    → Filled parts
    → join_commas ("" ∷ parts) ≡ String.◌∷◌ c (join_commas parts)
unfolding join_commas
join-empty c [] e f = elim f [ ]
join-empty c (s ∷ more) e f =
    let rest = join_commas (s ∷ more) in
    nil-append (String.◌++◌ "," rest)
    ∙ cons-append comma "" rest
    ∙ ap (λ x. String.◌∷◌ comma x) (nil-append rest)
    ∙ ap (λ x. String.◌∷◌ x rest) (sym (Char-path c comma e))

split-join : (s : String) → join_commas (split_commas s) ≡ s
unfolding split_commas join_commas
split-join String.[] = refl
split-join (String.◌∷◌ c s) = elim (Bool-cases (eqb (code c) 44)) [
  | inl e ↦ rw e (
      join-empty c (split_commas s) (ground arith) (split_commas-Filled s)
      ∙ ap (λ x. String.◌∷◌ c x) (split-join s))
  | inr e ↦ rw e (join-cons_first c (split_commas s) ∙ ap (λ x. String.◌∷◌ c x) (split-join s))
]

no_comma-cons_first :
    (c : Char) (parts : List String)
    → eqb (code c) 44 ≡ false
    → All (λ x. has_comma x ≡ false) parts
    → All (λ x. has_comma x ≡ false) (cons_first c parts)
unfolding cons_first
no_comma-cons_first c [] e a = (rw e refl, tt)
no_comma-cons_first c (s ∷ more) e a = (rw e a.0, a.1)

split-no_comma : (s : String) → All (λ x. has_comma x ≡ false) (split_commas s)
unfolding split_commas
split-no_comma String.[] = (refl, tt)
split-no_comma (String.◌∷◌ c s) = elim (Bool-cases (eqb (code c) 44)) [
  | inl e ↦ rw e (refl, split-no_comma s)
  | inr e ↦ rw e (no_comma-cons_first c (split_commas s) e (split-no_comma s))
]

-- Where Load succeeds, the allowed origins are the trimmed parts of CORS_ALLOWED_ORIGINS: there are
-- parts without commas that make up the variable when they are joined by commas.
pub load_origins :
    (s : Surroundings) (cfg : Config)
    → load s ≡ ok cfg
    → (parts : List String) × (join_commas parts ≡ cfg.settings.cors.allowed_origins_env)
      × All (λ x. has_comma x ≡ false) parts
      × (cfg.allowed_origins ≡ map trim_space parts)
unfolding load configured
load_origins s cfg h = (
  split_commas cfg.settings.cors.allowed_origins_env,
  split-join _,
  split-no_comma _,
  ground arith,
)
