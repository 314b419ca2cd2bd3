-- ===== src/Http/Answers.antt =====
-- What holds of the reply behind the middlewares: a rule for each way to answer.
use expire_share_api.Prelude.{String, Option, none, some, Bool, true, false, if◌then◌else◌, ◌==◌}
use expire_share_api.Domain.{Error}
use expire_share_api.World.{World, Env, Result, ok, err, Action}
use expire_share_api.RateLimiter.{Params, Store}
use expire_share_api.Http.Text.{extract_ip, extract_bearer_token}
use expire_share_api.Http.Reply.{Written, Handler, UserClaims, respond}
use expire_share_api.Http.Responses.{internal_error, render_auth_service_error}
use expire_share_api.Http.AuthClient.{Validated}
use expire_share_api.Http.Middlewares.{
  Server, Serve, Asked, limited, auth, admin_auth, admin_secret, compared, after_allow,
  after_validate, unauthorized, too_many,
}
use expire_share_api.Http.Routes.{App, Arrival, on_world, user_route, admin_route}

-- The replies that the middlewares give themselves.
pub record Refusals (P : Written → Type 0) : Type 0 where
  pub internal : P internal_error
  pub none_given : P unauthorized
  pub many : P too_many

module _ (P : Written → Type 0) where
  answer-if : (b : Bool) (x y : Written × Server) → P x.0 → P y.0 → P (if b then x else y).0
  answer-if true x y h k = h
  answer-if false x y h k = k

  respond-cases :
      {A : Type 0} (good : A → Written) (bad : Error → Written)
      → ((a : A) → P (good a))
      → ((e : Error) → P (bad e))
      → (x : Result A × World) (env : Env) (w : World) → P (respond (λ _ _. x) good bad env w).0
  unfolding respond
  respond-cases good bad h k (ok a, w') env w = h a
  respond-cases good bad h k (err e, w') env w = k e

  pub respond-Answers :
      {A : Type 0} (m : Action A) (good : A → Written) (bad : Error → Written)
      → ((a : A) → P (good a))
      → ((e : Error) → P (bad e))
      → (env : Env) (w : World) → P (respond m good bad env w).0
  unfolding respond
  respond-Answers m good bad h k env w = respond-cases good bad h k (m env w) env w

  pub on_world-Answers :
      (h : Handler) (env : Env) (s : Server) → P (h env s.world).0 → P (on_world h env s).0
  unfolding on_world
  on_world-Answers h env s k = k

  module _ (r : Refusals P) where
    after_allow-Answers :
        (next : Serve) (w : World) (x : Result Bool × Store)
        → ((s : Server) → P (next s).0)
        → P (after_allow next w x).0
    after_allow-Answers next w (ok true, m) k = k _
    after_allow-Answers next w (ok false, m) k = r.many
    after_allow-Answers next w (err e, m) k = k _

    pub limited-Answers :
        (ps : Params) (asked : Asked) (ip : String) (next : Serve) (s : Server)
        → ((u : Server) → P (next u).0)
        → P (limited ps asked ip next s).0
    unfolding limited
    limited-Answers ps asked ip next s k =
        answer-if (ip == "") _ _ r.internal (after_allow-Answers next s.world _ k)

    after_validate-Answers :
        ((e : Error) → P (render_auth_service_error e))
        → (next : UserClaims → Serve) (x : Result Validated) (s : Server)
        → ((c : UserClaims) (u : Server) → P (next c u).0)
        → P (after_validate next x s).0
    after_validate-Answers bad next (ok v) s k = k _ s
    after_validate-Answers bad next (err e) s k = bad e

    auth-Answers :
        ((e : Error) → P (render_auth_service_error e))
        → (validate : String → Result Validated) (header : String) (next : UserClaims → Serve)
          (s : Server)
        → ((c : UserClaims) (u : Server) → P (next c u).0)
        → P (auth validate header next s).0
    unfolding auth
    auth-Answers bad validate header next s k =
        let token = extract_bearer_token header in
        answer-if (token == "") (unauthorized, s) (after_validate next (validate token) s)
          r.none_given (after_validate-Answers bad next (validate token) s k)

    pub user_route-Answers :
        ((e : Error) → P (render_auth_service_error e))
        → (app : App) (a : Arrival) (h : Option UserClaims → Handler) (s : Server)
        → ((c : UserClaims) (w : World) → P (h (some c) a.env w).0)
        → P (user_route app a h s).0
    user_route-Answers bad app a h s k =
        auth-Answers bad app.validate a.authorization (λ c. on_world (h (some c)) a.env) s
          (λ c u. on_world-Answers (h (some c)) a.env u (k c u.world))

    compared-Answers :
        (ps : Params) (asked : Asked) (ip secret : String) (next : Serve) (given : Option String)
        (s : Server)
        → ((u : Server) → P (next u).0)
        → P (compared ps asked ip secret next given s).0
    compared-Answers ps asked ip secret next none s k = r.none_given
    compared-Answers ps asked ip secret next (some g) s k =
        answer-if (g == secret) _ _ (k _) r.none_given

    secret-Answers :
        (ps : Params) (asked : Asked) (ip : String) (decode : String → Option String)
        (secret header : String) (next : Serve) (s : Server)
        → ((u : Server) → P (next u).0)
        → P (admin_secret ps asked ip decode secret header next s).0
    secret-Answers ps asked ip decode secret header next s k =
        let token = extract_bearer_token header in
        answer-if (token == "") (unauthorized, s)
          (compared ps asked ip secret next (decode token) s) r.none_given
          (compared-Answers ps asked ip secret next (decode token) s k)

    pub admin_route-Answers :
        (app : App) (a : Arrival) (h : Handler) (s : Server)
        → ((w : World) → P (h a.env w).0)
        → P (admin_route app a (on_world h a.env) s).0
    unfolding admin_auth
    admin_route-Answers app a h s k =
        let ip = extract_ip a.remote_addr in
        let next = on_world h a.env in
        limited-Answers app.admin_limit a.asked ip
          (admin_secret app.admin_limit a.asked ip app.decode app.secret a.authorization next) s
          (λ u.
            secret-Answers app.admin_limit a.asked ip app.decode app.secret a.authorization next u
              (λ v. on_world-Answers h a.env v (k v.world)))
