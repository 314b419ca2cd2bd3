-- ===== src/Http/Attempts.antt =====
-- The administrator's routes behind NewAdminAuth: how many wrong secrets of one address are looked
-- at.
use Prim.Native.Nat.{min}
use mathlib.Core.Path.{fun_ext}
use expire_share_api.Prelude.{
  inl, inr, Bool-cases, ℕ, ◌+◌, ◌≤◌, ◌<◌, String, Option, none, some, List, [], ◌∷◌, Bool, true,
  false, ◌≡◌, ◌≢◌, ap, refl, ◌==◌, eq_iff, if◌then◌else◌, length, All, map,
}
use expire_share_api.RateLimiter.{allow_script, key_of, lookup}
use expire_share_api.RateLimiter.Keys.{admitted}
use expire_share_api.Http.Text.{extract_ip, extract_bearer_token}
use expire_share_api.Http.FileHandlers.{get_all_handler, stat_handler, get_handler, delete_handler}
use expire_share_api.Http.Middlewares.{
  Server, Serve, Asked, limited, admin_auth, admin_secret, compared, unauthorized, too_many,
  admin_user_context,
}
use expire_share_api.Http.Routes.{
  App, Arrival, Route, serve, admin_route, on_world, file_service, get_download, post_upload,
  get_files, get_stat, get_info, delete_info, admin_files, admin_stat, admin_get, admin_delete,
}
use expire_share_api.Http.Limited.{
  passed, count_passed, answering, serve_each, IsLimited, serve_each-limit, serve_each-untouched,
}

abbrev pub IsAdmin : Route → Type 0
IsAdmin (admin_files id page limit) = Unit {0}
IsAdmin (admin_stat id) = Unit {0}
IsAdmin (admin_get alias) = Unit {0}
IsAdmin (admin_delete alias) = Unit {0}
IsAdmin _ = ⊥

-- A request with its route.
abbrev pub Attempt : Type 0
Attempt = Arrival × Route

abbrev pub moment : Attempt → ℕ
moment r = r.0.asked.now

refusing : Serve
refusing s = (unauthorized, s)

module _ (app : App) where
  abbrev pub serve_attempt : Attempt → Serve
  serve_attempt (a, route) = serve app a route

  -- What the request bears is not the secret.
  abbrev pub IsWrong : Arrival → Type 0
  IsWrong a = app.decode (extract_bearer_token a.authorization) ≢ some app.secret

  -- A request on an administrator's route from this address, at which the limiter answers, with a
  -- wrong secret or none.
  abbrev pub Guess : String → Attempt → Type 0
  Guess ip (a, route) =
      IsAdmin route × IsWrong a × (extract_ip a.remote_addr ≡ ip) × (a.asked.allow_fault ≡ none)

  mismatched :
      (asked : Asked) (ip : String) (next : Serve) (given : Option String) (s : Server)
      → given ≢ some app.secret
      → compared app.admin_limit asked ip app.secret next given s ≡ refusing s
  unfolding refusing
  mismatched asked ip next none s wrong = refl
  mismatched asked ip next (some g) s wrong = elim (Bool-cases (g == app.secret)) [
    | inl e ↦ absurd (wrong (ap some ((eq_iff g app.secret).0 e)))
    | inr e ↦ rw e
  ]

  refused :
      (a : Arrival) (ip : String) (next : Serve) (s : Server)
      → IsWrong a
      → admin_secret app.admin_limit a.asked ip app.decode app.secret a.authorization next s
        ≡ refusing s
  unfolding refusing
  refused a ip next s wrong =
      let token = extract_bearer_token a.authorization in
      elim (Bool-cases (token == "")) [
        | inl e ↦ rw e
        | inr e ↦ rw e (mismatched a.asked ip next (app.decode token) s wrong)
      ]

  -- Behind the limiter such a request meets a refusal, whatever handler the route has.
  behind :
      (a : Arrival) (next : Serve)
      → IsWrong a
      → admin_route app a next ≡ limited app.admin_limit a.asked (extract_ip a.remote_addr) refusing
  unfolding admin_auth
  behind a next wrong =
      ap (limited app.admin_limit a.asked (extract_ip a.remote_addr))
        (fun_ext (λ s. refused a (extract_ip a.remote_addr) next s wrong))

  guessed :
      (a : Arrival) (route : Route)
      → IsAdmin route
      → IsWrong a
      → serve app a route ≡ limited app.admin_limit a.asked (extract_ip a.remote_addr) refusing
  unfolding serve
  guessed a (admin_files id page limit) i wrong =
      behind a
        (on_world (get_all_handler (file_service app a) (some (admin_user_context id)) page limit)
          a.env)
        wrong
  guessed a (admin_stat id) i wrong =
      behind a (on_world (stat_handler (file_service app a) (some (admin_user_context id))) a.env)
        wrong
  guessed a (admin_get alias) i wrong =
      behind a
        (on_world (get_handler (file_service app a) (some (admin_user_context "")) alias) a.env)
        wrong
  guessed a (admin_delete alias) i wrong =
      behind a
        (on_world (delete_handler (file_service app a) (some (admin_user_context "")) alias) a.env)
        wrong
  guessed a (get_download alias password) i wrong = absurd i
  guessed a (post_upload form) i wrong = absurd i
  guessed a (get_files page limit) i wrong = absurd i
  guessed a get_stat i wrong = absurd i
  guessed a (get_info alias) i wrong = absurd i
  guessed a (delete_info alias) i wrong = absurd i

  module _ (ip : String) (named : (ip == "") ≡ false) where
    answered :
        (b : Bool) (s t : Server)
        → let x = if b then refusing s else (too_many, s) in
          (passed x.0 ≡ admitted (b ∷ [])) × (x.1.counters ≡ s.counters) × (x.1.world ≡ s.world)
    unfolding refusing
    answered true s t = (refl, refl, refl)
    answered false s t = (refl, refl, refl)

    attempt :
        (r : Attempt) (s : Server)
        → Guess ip r
        → let (b, m) =
            allow_script app.admin_limit (key_of app.admin_limit ip) (moment r) s.counters in
          (passed (serve_attempt r s).0 ≡ admitted (b ∷ []))
          × ((serve_attempt r s).1.counters ≡ m)
          × ((serve_attempt r s).1.world ≡ s.world)
    attempt (a, route) s (i, wrong, from, answers_now) =
        let (b, m) =
          allow_script app.admin_limit (key_of app.admin_limit ip) a.asked.now s.counters in
        rw
          (
            guessed a route i wrong,
            from,
            answering app.admin_limit a.asked ip refusing s answers_now named,
          )
          (answered b (record s { counters = m }) s)

    IsLimited-guesses :
        (rs : List Attempt)
        → All (Guess ip) rs
        → All (IsLimited moment serve_attempt app.admin_limit ip) rs
    IsLimited-guesses [] all = tt
    IsLimited-guesses (r ∷ more) (g, all) =
        (λ s. let h = attempt r s g in (h.0, h.1), IsLimited-guesses more all)

    untouched :
        (rs : List Attempt)
        → All (Guess ip) rs
        → All (λ r. (u : Server) → (serve_attempt r u).1.world ≡ u.world) rs
    untouched [] all = tt
    untouched (r ∷ more) (g, all) = (λ u. (attempt r u g).2, untouched more all)

    -- Requests on the administrators' routes of files from one address, each with a wrong secret or
    -- none, with no counter for the address at the first, each later one no earlier than it and
    -- before the window and the block that the first opens are over, and a limiter that answers: as
    -- many as there are, up to `max_attempts`, get another answer than 429, and the rows, the
    -- folders, the transaction and the open handles stay as they are.
    pub attempts-limit :
        (r : Attempt) (rs : List Attempt) (s : Server)
        → All (Guess ip) (r ∷ rs)
        → lookup (key_of app.admin_limit ip) (moment r) s.counters ≡ none
        → 0 < app.admin_limit.window
        → 0 < app.admin_limit.block_duration
        → All
            (λ t.
              (moment r ≤ t)
              × (t < moment r + app.admin_limit.window)
              × (t < moment r + app.admin_limit.block_duration))
            (map moment rs)
        → (count_passed (serve_each moment serve_attempt (r ∷ rs) s).0
            ≡ min (length (map moment (r ∷ rs))) app.admin_limit.max_attempts)
          × ((serve_each moment serve_attempt (r ∷ rs) s).1.world ≡ s.world)
    attempts-limit r rs s all fresh w b later = (
      serve_each-limit moment serve_attempt app.admin_limit ip r rs s
          (IsLimited-guesses (r ∷ rs) all) fresh w b later,
      serve_each-untouched moment serve_attempt (r ∷ rs) s (untouched (r ∷ rs) all),
    )
