-- ===== src/Tests/Server/Guessing.antt =====
-- The theorems on the replies and on wrong secrets, applied at concrete requests.
use expire_share_api.Prelude.{refl, List, [], ◌∷◌, ◌≡◌, arith}
use expire_share_api.RateLimiter.{lookup}
use expire_share_api.Http.Text.{extract_ip, extract_bearer_token}
use expire_share_api.Http.Routes.{serve, get_download, admin_delete, admin_stat}
use expire_share_api.Http.Limited.{count_passed, serve_each}
use expire_share_api.Http.Attempts.{Attempt, moment, serve_attempt, IsWrong, attempts-limit}
use expire_share_api.Http.Typed.{Typed, Success, failures}
use expire_share_api.Http.Typed.Serve.{serve-Typed}
use expire_share_api.Tests.Server.{app, arrival, server}

serve-Typed_example :
    Typed
      (Success (get_download "Ab3dEf" "pw"))
      (failures (get_download "Ab3dEf" "pw"))
      (serve app arrival (get_download "Ab3dEf" "pw") server).0
serve-Typed_example = serve-Typed app arrival server (get_download "Ab3dEf" "pw")

arrival-IsWrong : IsWrong app arrival
unfolding extract_bearer_token
arrival-IsWrong e = cc

abbrev guesses : List Attempt
guesses = (arrival, admin_delete "Ab3dEf") ∷ (arrival, admin_stat "7") ∷ []

attempts-limit_example :
    let run = serve_each moment (serve_attempt app) ((arrival, admin_stat "7") ∷ guesses) server in
    (count_passed run.0 ≡ 2) × (run.1.world ≡ server.world)
unfolding lookup extract_ip
attempts-limit_example =
    let guess = arrival-IsWrong in
    attempts-limit app "10.0.0.7" refl (arrival, admin_stat "7") guesses server
      ((tt, guess, refl, refl), ((tt, guess, refl, refl), ((tt, guess, refl, refl), tt))) refl
      (omega arith) (omega arith) (ground arith)
