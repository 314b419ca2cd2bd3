-- ===== src/Http/Leaves.antt =====
-- What holds of the state behind the middlewares: a rule for each way to answer.
use expire_share_api.Prelude.{
  String, Option, none, some, ◌≡◌, refl, Bool, true, false, ◌==◌, if◌then◌else◌, eq_iff, ap,
}
use expire_share_api.Domain.{Error}
use expire_share_api.World.{World, Env, Result, ok, err, Action}
use expire_share_api.RateLimiter.{Params, Store, reset}
use expire_share_api.Http.Text.{extract_ip, extract_bearer_token}
use expire_share_api.Http.Reply.{Written, Handler, respond, UserClaims}
use expire_share_api.Http.AuthClient.{Validated}
use expire_share_api.Http.Middlewares.{
  Server, Serve, Asked, limited, auth, admin_auth, admin_secret, after_allow, after_validate,
  compared,
}
use expire_share_api.Http.Routes.{on_world}

-- A server's answer leaves a state that satisfies `P`.
abbrev pub Leaves : (World → Type 0) → Written × Server → Type 0
Leaves P x = P x.1.world

-- The claims that NewAuth puts into the context.
abbrev pub claims_of : Validated → UserClaims
claims_of v = record { user_id = v.user_id; roles = v.roles }

module _ (P : World → Type 0) where
  respond-cases :
      {A : Type 0} (x : Result A × World) (good : A → Written) (bad : Error → Written) (env : Env)
      (w : World)
      → P x.1
      → P (respond (λ _ _. x) good bad env w).1
  unfolding respond
  respond-cases (ok a, w') good bad env w h = h
  respond-cases (err e, w') good bad env w h = h

  pub respond-Leaves :
      {A : Type 0} (m : Action A) (good : A → Written) (bad : Error → Written) (env : Env)
      (w : World)
      → P (m env w).1
      → P (respond m good bad env w).1
  unfolding respond
  respond-Leaves m good bad env w h = respond-cases (m env w) good bad env w h

  pub on_world-Leaves :
      (h : Handler) (env : Env) (s : Server) → P (h env s.world).1 → Leaves P (on_world h env s)
  unfolding on_world
  on_world-Leaves h env s k = k

  Leaves-if :
      (b : Bool) (x y : Written × Server) → Leaves P x → Leaves P y → Leaves P (if b then x else y)
  Leaves-if true x y h k = h
  Leaves-if false x y h k = k

  Leaves-when :
      (b : Bool) (x y : Written × Server)
      → (b ≡ true → Leaves P x)
      → Leaves P y
      → Leaves P (if b then x else y)
  Leaves-when true x y h k = h refl
  Leaves-when false x y h k = k

  after_allow-Leaves :
      (next : Serve) (w : World) (x : Result Bool × Store)
      → P w
      → ((m : Store) → Leaves P (next (record { world = w; counters = m })))
      → Leaves P (after_allow next w x)
  after_allow-Leaves next w (ok true, m) h k = k m
  after_allow-Leaves next w (ok false, m) h k = h
  after_allow-Leaves next w (err e, m) h k = k m

  pub limited-Leaves :
      (ps : Params) (asked : Asked) (ip : String) (next : Serve) (s : Server)
      → P s.world
      → ((m : Store) → Leaves P (next (record s { counters = m })))
      → Leaves P (limited ps asked ip next s)
  unfolding limited
  limited-Leaves ps asked ip next s h k =
      Leaves-if (ip == "") _ _ h (after_allow-Leaves next s.world _ h k)

  after_validate-Leaves :
      (next : UserClaims → Serve) (r : Result Validated) (s : Server)
      → P s.world
      → ((v : Validated) → r ≡ ok v → Leaves P (next (claims_of v) s))
      → Leaves P (after_validate next r s)
  after_validate-Leaves next (ok v) s h k = k v refl
  after_validate-Leaves next (err e) s h k = h

  pub auth-Leaves :
      (validate : String → Result Validated) (header : String) (next : UserClaims → Serve)
      (s : Server)
      → P s.world
      → ((v : Validated)
          → validate (extract_bearer_token header) ≡ ok v
          → Leaves P (next (claims_of v) s))
      → Leaves P (auth validate header next s)
  unfolding auth
  auth-Leaves validate header next s h k =
      let token = extract_bearer_token header in
      Leaves-if (token == "") _ _ h (after_validate-Leaves next (validate token) s h k)

  compared-Leaves :
      (ps : Params) (asked : Asked) (ip secret : String) (next : Serve) (given : Option String)
      (s : Server)
      → P s.world
      → ((m : Store) → given ≡ some secret → Leaves P (next (record s { counters = m })))
      → Leaves P (compared ps asked ip secret next given s)
  compared-Leaves ps asked ip secret next none s h k = h
  compared-Leaves ps asked ip secret next (some given) s h k =
      Leaves-when (given == secret) _ _
        (λ same.
          k (reset ps asked.reset_fault ip s.counters).1 (ap some ((eq_iff given secret).0 same)))
        h

  pub admin_auth-Leaves :
      (ps : Params) (asked : Asked) (decode : String → Option String)
      (secret remote_addr header : String) (next : Serve) (s : Server)
      → P s.world
      → ((m : Store)
          → decode (extract_bearer_token header) ≡ some secret
          → Leaves P (next (record s { counters = m })))
      → Leaves P (admin_auth ps asked decode secret remote_addr header next s)
  unfolding admin_auth
  admin_auth-Leaves ps asked decode secret remote_addr header next s h k =
      let ip = extract_ip remote_addr in
      let token = extract_bearer_token header in
      limited-Leaves ps asked ip (admin_secret ps asked ip decode secret header next) s h (λ m.
        Leaves-if (token == "") _ _ h
          (compared-Leaves ps asked ip secret next (decode token) (record s { counters = m }) h k))
