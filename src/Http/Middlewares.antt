-- ===== src/Http/Middlewares.antt =====
-- internal/delivery/middlewares: what runs before the handlers. A handler here is a function of the
-- whole server: the state of the file routes and the counters of the rate limiter.
use expire_share_api.Prelude.{
  ℕ, ℤ, pos, String, Option, none, some, List, [], ◌∷◌, Bool, true, false, ◌==◌, ◌||◌,
  if◌then◌else◌, leb,
}
use expire_share_api.Domain.{role_admin}
use expire_share_api.World.{World, Result, ok, err, Done, Fault}
use expire_share_api.RateLimiter.{Params, Store, allow, reset}
use expire_share_api.Http.Text.{extract_ip, extract_bearer_token, parse_int}
use expire_share_api.Http.Reply.{Written, UserClaims}
use expire_share_api.Http.Responses.{
  FieldError, render_error, internal_error, render_auth_service_error, render_validation_error,
}
use expire_share_api.Http.AuthClient.{Validated}

pub record Server : Type 0 where
  pub world : World
  pub counters : Store

abbrev pub Serve : Type 0
Serve = Server → Written × Server

abbrev pub unauthorized : Written
unauthorized = render_error 401 "unauthorized request"

abbrev pub too_many : Written
too_many = render_error 429 "too many requests. try again later"

-- What the limiter is asked at one request: the call may fail, and the clock is in seconds.
pub record Asked : Type 0 where
  pub allow_fault : Option Fault
  pub reset_fault : Option Fault
  pub now : ℕ

-- A limiter that does not answer lets the request through.
abbrev pub after_allow : Serve → World → Result Bool × Store → Written × Server
after_allow next w (ok true, m) = next (record { world = w; counters = m })
after_allow next w (ok false, m) = (too_many, record { world = w; counters = m })
after_allow next w (err e, m) = next (record { world = w; counters = m })

-- The part that NewRateLimiter and NewAdminAuth share, for the address that ExtractIP gives.
unfoldable pub limited : Params → Asked → String → Serve → Serve
limited ps asked ip next s =
    if ip == ""
    then (internal_error, s)
    else after_allow next s.world (allow ps asked.allow_fault ip asked.now s.counters)

-- NewRateLimiter
unfoldable pub rate_limiter : Params → Asked → String → Serve → Serve
unfolding limited
rate_limiter ps asked remote_addr next = limited ps asked (extract_ip remote_addr) next

abbrev pub after_validate : (UserClaims → Serve) → Result Validated → Serve
after_validate next (ok v) s = next (record { user_id = v.user_id; roles = v.roles }) s
after_validate next (err e) s = (render_auth_service_error e, s)

-- NewAuth, for the Authorization header. An error of the context, and one that
-- RenderAuthServiceError does not know, end the request with nothing written.
unfoldable pub auth : (String → Result Validated) → String → (UserClaims → Serve) → Serve
auth validate header next s =
    let token = extract_bearer_token header in
    if token == "" then (unauthorized, s) else after_validate next (validate token) s

abbrev pub after_reset : Serve → World → Result Done × Store → Written × Server
after_reset next w (_, m) = next (record { world = w; counters = m })

abbrev pub compared : Params → Asked → String → String → Serve → Option String → Serve
compared ps asked ip secret next none s = (unauthorized, s)
compared ps asked ip secret next (some given) s =
    if given == secret
    then after_reset next s.world (reset ps asked.reset_fault ip s.counters)
    else (unauthorized, s)

-- NewAdminAuth after the limiter. `decode` is base64.StdEncoding.DecodeString.
abbrev pub admin_secret :
    Params → Asked → String → (String → Option String) → String → String → Serve → Serve
admin_secret ps asked ip decode secret header next s =
    let token = extract_bearer_token header in
    if token == "" then (unauthorized, s) else compared ps asked ip secret next (decode token) s

-- NewAdminAuth
unfoldable pub admin_auth :
    Params → Asked → (String → Option String) → String → String → String → Serve → Serve
unfolding limited
admin_auth ps asked decode secret remote_addr header next =
    let ip = extract_ip remote_addr in
    limited ps asked ip (admin_secret ps asked ip decode secret header next)

abbrev id_or_zero : Option ℤ → ℤ
id_or_zero none = pos 0
id_or_zero (some n) = n

-- NewAdminUserContext: the claims of an administrator, under the id of the path.
pub admin_user_context : String → UserClaims
unfolding parse_int
admin_user_context id = record { user_id = id_or_zero (parse_int 64 id); roles = role_admin ∷ [] }

abbrev methods_to_skip : String → Bool
methods_to_skip method =
    method == "GET" || method == "HEAD" || method == "DELETE" || method == "OPTIONS"

abbrev is_positive : ℤ → Bool
is_positive n = elim n [ pos m ↦ leb 1 m | _ ↦ false ]

abbrev after_decode : {A : Type 0} → (Option A → Written) → Option A → Written
after_decode next none = render_error 400 "failed to decode request body"
after_decode next (some request) = next (some request)

-- NewBodyParser: `decoded` is what render.DecodeJSON makes of the body.
unfoldable pub body_parser : {A : Type 0} → String → ℤ → Option A → (Option A → Written) → Written
body_parser method content_length decoded next =
    if methods_to_skip method
    then next none
    else if is_positive content_length
    then after_decode next decoded
    else render_error 400 "request body is empty"

abbrev after_struct : {A : Type 0} → (Option A → Written) → A → List FieldError → Written
after_struct next request [] = next (some request)
after_struct next request (e ∷ es) = render_validation_error (e ∷ es)

-- NewValidator: `struct` is validate.Struct, the fields that fail.
unfoldable pub validator :
    {A : Type 0} → (A → List FieldError) → (Option A → Written) → Option A → Written
validator struct next none = internal_error
validator struct next (some request) = after_struct next request (struct request)
