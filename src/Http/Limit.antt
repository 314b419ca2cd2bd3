-- ===== src/Http/Limit.antt =====
-- The download route behind its rate limiter: how many requests from one address reach the service.
use Prim.Native.Nat.{min}
use expire_share_api.Prelude.{
  ℕ, ◌+◌, ◌≤◌, ◌<◌, String, none, List, [], ◌∷◌, Bool, true, false, ◌≡◌, refl, arith, ◌==◌,
  if◌then◌else◌, length, All, map,
}
use expire_share_api.Domain.{Error}
use expire_share_api.World.{World, Result, ok, err}
use expire_share_api.Storage.{Opened}
use expire_share_api.Files.{download_file}
use expire_share_api.RateLimiter.{Store, allow_script, key_of, lookup}
use expire_share_api.Http.Limited.{
  passed, count_passed, answering, serve_each, IsLimited, serve_each-limit,
}
use expire_share_api.RateLimiter.Keys.{admitted}
use expire_share_api.Http.Text.{extract_ip}
use expire_share_api.Http.Reply.{Written}
use expire_share_api.Http.Responses.{file_failure}
use expire_share_api.Http.FileHandlers.{download_handler, after_download, Copied}
use expire_share_api.Http.Middlewares.{Server, Serve, rate_limiter, too_many}
use expire_share_api.Http.Routes.{App, Arrival, serve, get_download, on_world}

file_failure-passed : (e : Error) → passed (file_failure e) ≡ 1
unfolding file_failure
file_failure-passed e = ground arith

after_download-passed :
    (type_of : String → String) (end : Copied) (x : Result Opened × World)
    → passed (after_download type_of end x).0 ≡ 1
after_download-passed type_of end (ok o, w) = ground arith
after_download-passed type_of end (err e, w) = file_failure-passed e

-- A download request: how it arrives, the alias and the password.
abbrev pub Fetch : Type 0
Fetch = Arrival × String × String

abbrev pub moment : Fetch → ℕ
moment f = f.0.asked.now

module _ (app : App) where
  abbrev pub serve_fetch : Fetch → Serve
  serve_fetch (a, alias, password) = serve app a (get_download alias password)

  -- The requests one after the other: the answers, and the server at the end.
  abbrev pub serve_all : List Fetch → Server → List Written × Server
  serve_all fs s = serve_each moment serve_fetch fs s

  -- A request from this address, at which the limiter answers.
  abbrev pub From : String → Fetch → Type 0
  From ip f = (extract_ip f.0.remote_addr ≡ ip) × (f.0.asked.allow_fault ≡ none)

  abbrev pub times : List Fetch → List ℕ
  times fs = map moment fs

  module _ (ip : String) (named : (ip == "") ≡ false) where
    abbrev counted : Arrival → Server → Bool × Store
    counted a s = allow_script app.files_limit (key_of app.files_limit ip) a.asked.now s.counters

    step_answer :
        (b : Bool) (a : Arrival) (alias password : String) (s : Server) (m : Store)
        → let h =
            download_handler (download_file app.platform) app.type_of a.copied alias password in
          let x =
            if b
            then on_world h a.env (record s { counters = m })
            else (too_many, record s { counters = m }) in
          (passed x.0 ≡ admitted (b ∷ [])) × (x.1.counters ≡ m)
    unfolding on_world download_handler
    step_answer true a alias password s m = (after_download-passed app.type_of a.copied _, refl)
    step_answer false a alias password s m = (refl, refl)

    step :
        (a : Arrival) (alias password : String) (s : Server)
        → From ip (a, alias, password)
        → let x = serve app a (get_download alias password) s in
          (passed x.0 ≡ admitted ((counted a s).0 ∷ [])) × (x.1.counters ≡ (counted a s).1)
    unfolding serve rate_limiter
    step a alias password s (from, answers_now) =
        let h = download_handler (download_file app.platform) app.type_of a.copied alias password in
        rw (from, answering app.files_limit a.asked ip (on_world h a.env) s answers_now named)
          (step_answer (counted a s).0 a alias password s (counted a s).1)

    IsLimited-of_From :
        (fs : List Fetch)
        → All (From ip) fs
        → All (IsLimited moment serve_fetch app.files_limit ip) fs
    IsLimited-of_From [] all = tt
    IsLimited-of_From ((a, alias, password) ∷ more) (from, all) =
        (λ s. step a alias password s from, IsLimited-of_From more all)

    -- Requests to download from one address, with no counter for it at the first, each later one
    -- before the window and the block that the first opens are over, and a limiter that answers:
    -- as many as there are, up to `max_attempts`, get another answer than 429, which the handler of
    -- the route never gives.
    pub serve_all-limit :
        (f : Fetch) (fs : List Fetch) (s : Server)
        → All (From ip) (f ∷ fs)
        → lookup (key_of app.files_limit ip) f.0.asked.now s.counters ≡ none
        → 0 < app.files_limit.window
        → 0 < app.files_limit.block_duration
        → All
            (λ t.
              (f.0.asked.now ≤ t)
              × (t < f.0.asked.now + app.files_limit.window)
              × (t < f.0.asked.now + app.files_limit.block_duration))
            (times fs)
        → count_passed (serve_all (f ∷ fs) s).0
          ≡ min (length (times (f ∷ fs))) app.files_limit.max_attempts
    serve_all-limit f fs s all fresh w b later =
        serve_each-limit moment serve_fetch app.files_limit ip f fs s
          (IsLimited-of_From (f ∷ fs) all) fresh w b later
