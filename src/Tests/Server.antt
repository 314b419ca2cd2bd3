-- ===== src/Tests/Server.antt =====
-- The theorems on the server, applied at a concrete configuration and concrete requests.
mod Handles
mod Answers
mod UseCases
mod Counters
mod Storing
mod Guessing
use Prim.Native.String
use expire_share_api.Prelude.{
  start, step, eq_iff, Bool-cases, inl, inr, ◌≡◌, ◌⊎◌, ◌≤◌, refl, String, none, some, List, [], ◌∷◌,
  ◌==◌, arith, pos, length, map, if◌then◌else◌,
}
use expire_share_api.Domain.{Error, File, sentinel, forbidden, access_token_expired}
use expire_share_api.World.{Stored, Result, ok, err}
use expire_share_api.World.Post.{Post}
use expire_share_api.Repo.Transactions.{stat_of}
use expire_share_api.Storage.{entries}
use expire_share_api.Repo.Pages.{Listed}
use expire_share_api.RateLimiter.{lookup}
use expire_share_api.Files.{
  upload_file, download_file, get_all_files, file_info, has_role, check_password,
}
use expire_share_api.Files.Consistent.{Consistent}
use expire_share_api.Files.Quota.{WithinQuota, upload_file-WithinQuota}
use expire_share_api.Files.Progress.{Returns, download_file-Returns}
use expire_share_api.Storage.Effects.{stored_file}
use expire_share_api.Files.RoundTrip.{Hashes, download_file-upload_file}
use text.Mathlib.TextLemmas.{cons-ne-nil, append-eq-nil_iff}
use expire_share_api.Http.AuthClient.{
  GrpcError, status, failed, resource_exhausted, Login, Register, Logout, client_login,
  client_register, client_refresh, client_logout, get_user_by_id, assign_role, revoke_role,
}
use expire_share_api.Http.FileHandlers.{
  upload_handler, download_handler, get_handler, get_all_handler, stat_handler, delete_handler,
}
use expire_share_api.Worker.{round}
use expire_share_api.Worker.Progress.{round-clears}
use expire_share_api.Repo.Table.{row_at}
use expire_share_api.Alias.{gen}
use expire_share_api.Http.Text.{extract_ip, parse_int}
use expire_share_api.Http.FileHandlers.{Form, complete}
use expire_share_api.Http.Failures.{Refuses, failing, handlers-Refuse}
use expire_share_api.Http.Statuses.{handlers-status_for}
use expire_share_api.Http.AuthHandlers.{
  login_handler, register_handler, refresh_handler, logout_handler,
}
use expire_share_api.Http.UserHandlers.{get_user_handler, assign_handler, revoke_handler}
use expire_share_api.Http.Reply.{UserClaims, status_of}
use expire_share_api.Http.AuthClient.{Validated}
use expire_share_api.Http.Middlewares.{Server}
use expire_share_api.Http.Routes.{App, Arrival, serve, get_download, post_upload, delete_info}
use expire_share_api.Http.System.{request, Reaches-Consistent}
use expire_share_api.Http.Leaves.{Leaves}
use expire_share_api.Http.Access.{Ran, serve-Ran}
use expire_share_api.Http.Limited.{count_passed}
use expire_share_api.Http.Limit.{serve_all, serve_all-limit, Fetch}
use expire_share_api.Http.Pages.{query_command, get_all_files-Listed}
use expire_share_api.Tests.{
  old_file, platform, calm, report, world, world-IsValid, limits, files_limit, fetch, alice, note,
}

-- The auth service knows one token.
abbrev validate : String → Result Validated
validate token =
    if token == "t0k3n"
    then ok (record { user_id = pos 7; roles = "user" ∷ []; expires_at = pos 900 })
    else err (sentinel access_token_expired)

abbrev app : App
app = record {
  platform = platform;
  permissions = limits;
  service = record { max_downloads = pos 1; default_ttl = pos 300 };
  files_limit = files_limit;
  admin_limit = files_limit;
  secret = "secret";
  decode = λ s. some s;
  parse_duration = λ s. none;
  type_of = λ s. "";
  validate = validate;
}

abbrev arrival : Arrival
arrival = record {
  remote_addr = "10.0.0.7:4242";
  authorization = "Bearer t0k3n";
  env = calm;
  asked = record { allow_fault = none; reset_fault = none; now = 5 };
  alias = "Qq1Ww2";
  copied = complete;
}

abbrev server : Server
server = record { world = world; counters = [] }

abbrev form : Form
form = record {
  max_downloads = "12";
  ttl = "";
  password = "";
  file = some (record { name = "note.txt"; content = "hello" });
  filesize = 5;
}

-- A download, an upload and a round of the worker.
abbrev downloaded : Server
downloaded = (serve app arrival (get_download "Ab3dEf" "pw") server).1

abbrev uploaded : Server
uploaded = (serve app arrival (post_upload (some form)) downloaded).1

serve-Ran_example :
    Leaves
      (λ w. (w ≡ world) ⊎ Ran app arrival server (delete_info "Ab3dEf") w)
      (serve app arrival (delete_info "Ab3dEf") server)
serve-Ran_example = serve-Ran app arrival server (delete_info "Ab3dEf")

abbrev fetches : List Fetch
fetches =
    (arrival, "Ab3dEf", "pw")
    ∷ (
      record arrival { asked = record { allow_fault = none; reset_fault = none; now = 6 } },
      "Ab3dEf",
      "pw",
    )
    ∷ []

serve_all-limit_example :
    count_passed (serve_all app ((arrival, "Ab3dEf", "pw") ∷ fetches) server).0 ≡ 2
unfolding lookup extract_ip
serve_all-limit_example =
    serve_all-limit app "10.0.0.7" refl (arrival, "Ab3dEf", "pw") fetches server
      ((refl, refl), ((refl, refl), ((refl, refl), tt))) refl (omega arith) (omega arith)
      (ground arith)

get_all_files-Listed_example :
    let cmd = query_command (pos 7) "2" "1000" in
    (1 ≤ cmd.page)
    × (1 ≤ cmd.limit)
    × (cmd.limit ≤ 100)
    × Post
        (λ r w'.
          (w' ≡ world)
          × (length r.files ≤ cmd.limit)
          × ((files : List File) × Listed cmd calm world files r.total
              × (r.files ≡ map (file_info 100) files)))
        (λ _ w'. w' ≡ world)
        (get_all_files 100 cmd calm world)
get_all_files-Listed_example = get_all_files-Listed (pos 7) "2" "1000" 100 calm world
