-- ===== src/Http/Limited.antt =====
-- Requests of one address behind a rate limiter, one after the other: how many are let through.
use Prim.Native.Nat.{min}
use expire_share_api.Prelude.{
  ℕ, ◌+◌, ◌≤◌, ◌<◌, String, none, List, [], ◌∷◌, Bool, true, false, ◌≡◌, ◌∙◌, ap, refl, arith, eqb,
  ◌==◌, if◌then◌else◌, length, All, map,
}
use expire_share_api.RateLimiter.{Params, allow, allow_script, answers, key_of, lookup}
use expire_share_api.RateLimiter.Window.{answers-limit}
use expire_share_api.RateLimiter.Keys.{admitted}
use expire_share_api.Http.Reply.{Written, status_of}
use expire_share_api.Http.Middlewares.{Server, Serve, Asked, limited, too_many}

-- 1 for an answer that is not "too many requests".
abbrev pub passed : Written → ℕ
passed w = if eqb (status_of w) 429 then 0 else 1

abbrev pub count_passed : List Written → ℕ
count_passed [] = 0
count_passed (w ∷ ws) = passed w + count_passed ws

-- What the limiter does when it answers.
pub answering :
    (ps : Params) (asked : Asked) (ip : String) (next : Serve) (s : Server)
    → asked.allow_fault ≡ none
    → (ip == "") ≡ false
    → let (b, m) = allow_script ps (key_of ps ip) asked.now s.counters in
      limited ps asked ip next s
      ≡ (if b then next (record s { counters = m }) else (too_many, record s { counters = m }))
unfolding limited allow
answering ps asked ip next s f i = ground arith

admitted-cons : (b : Bool) (bs : List Bool) → admitted (b ∷ bs) ≡ admitted (b ∷ []) + admitted bs
admitted-cons true bs = omega arith
admitted-cons false bs = omega arith

-- Requests of a kind `R`, each with its moment and the way it is served.
module _ {R : Type 0} (moment : R → ℕ) (serve_one : R → Serve) where
  pub serve_each : List R → Server → List Written × Server
  serve_each [] s = ([], s)
  serve_each (r ∷ more) s =
      let (reply, s') = serve_one r s in
      let (replies, s'') = serve_each more s' in (reply ∷ replies, s'')

  pub serve_each-untouched :
      (rs : List R) (s : Server)
      → All (λ r. (u : Server) → (serve_one r u).1.world ≡ u.world) rs
      → (serve_each rs s).1.world ≡ s.world
  unfolding serve_each
  serve_each-untouched [] s all = refl
  serve_each-untouched (r ∷ more) s (here, all) =
      serve_each-untouched more (serve_one r s).1 all ∙ here s

  module _ (ps : Params) (ip : String) where
    -- The request gets through exactly where the limiter admits it, and leaves the limiter's count.
    abbrev pub IsLimited : R → Type 0
    IsLimited r =
        (s : Server)
        → let (b, m) = allow_script ps (key_of ps ip) (moment r) s.counters in
          (passed (serve_one r s).0 ≡ admitted (b ∷ [])) × ((serve_one r s).1.counters ≡ m)

    serve_each-answers :
        (rs : List R) (s : Server)
        → All IsLimited rs
        → count_passed (serve_each rs s).0
          ≡ admitted (answers ps (key_of ps ip) (map moment rs) s.counters).0
    unfolding serve_each answers
    serve_each-answers [] s all = refl
    serve_each-answers (r ∷ more) s (here, all) =
        let h = here s in
        let b = (allow_script ps (key_of ps ip) (moment r) s.counters).0 in
        let rest =
          serve_each-answers more (serve_one r s).1 all
          ∙ ap (λ m. admitted (answers ps (key_of ps ip) (map moment more) m).0) h.1 in
        omega (arith, h.0, rest, admitted-cons b _)

    pub serve_each-limit :
        (r : R) (rs : List R) (s : Server)
        → All IsLimited (r ∷ rs)
        → lookup (key_of ps ip) (moment r) s.counters ≡ none
        → 0 < ps.window
        → 0 < ps.block_duration
        → All
            (λ t. (moment r ≤ t) × (t < moment r + ps.window) × (t < moment r + ps.block_duration))
            (map moment rs)
        → count_passed (serve_each (r ∷ rs) s).0
          ≡ min (length (map moment (r ∷ rs))) ps.max_attempts
    serve_each-limit r rs s all fresh w b later =
        serve_each-answers (r ∷ rs) s all
        ∙ answers-limit ps (key_of ps ip) (moment r) (map moment rs) s.counters fresh w b later
