-- ===== src/Http/Typed.antt =====
-- What each route of internal/app/app.go on files can answer: its own kind of body under its own
-- status, or a list of errors under one of the statuses of its failures.
pub mod Serve
use expire_share_api.Prelude.{
  ℕ, ℤ, String, Option, none, some, List, [], ◌∷◌, Bool, true, false, ◌||◌, ◌≡◌, ◌⊎◌, inl, inr,
  refl, arith, eqb, Bool-cases,
}
use expire_share_api.Domain.{Error, Cause, is_ctx_error, FileInfo, StatResult}
use expire_share_api.World.{World, Env, Result, ok, err, Stored, Done}
use expire_share_api.Storage.{Opened}
use expire_share_api.Files.{download_file}
use expire_share_api.Http.Text.{extract_ip, scan_pagination_args}
use expire_share_api.Http.Reply.{
  Written, Reply, Body, errors, uploaded_as, file_sent, file_cut, file_info, file_page, stat_info,
  empty_response, UserClaims, respond, Handler,
}
use expire_share_api.Http.Responses.{
  file_failure, plain_failure, render_auth_service_error, render_error, file_cause, auth_cause,
  or_internal,
}
use expire_share_api.Http.FileHandlers.{
  Form, Parsed, parsed, invalid, UploadRequest, Copied, complete, disconnected, broken_after_header,
  broken_before_header, FileService, ServiceConfig, upload_parsed, upload_handler, download_handler,
  after_download, get_handler, get_all_handler, stat_handler, delete_handler, get_request_from_form,
  requesting, view_of, page_command, page_reply,
}
use expire_share_api.Http.Middlewares.{Server, rate_limiter, admin_user_context}
use expire_share_api.Http.Routes.{
  App, Arrival, Route, serve, on_world, user_route, admin_route, file_service, get_download,
  post_upload, get_files, get_stat, get_info, delete_info, admin_files, admin_stat, admin_get,
  admin_delete,
}
use expire_share_api.Http.Answers.{
  Refusals, respond-Answers, on_world-Answers, limited-Answers, user_route-Answers,
  admin_route-Answers,
}

-- The body of a file, whole or cut off.
abbrev pub IsFile : Body → Type 0
IsFile (file_sent f) = Unit
IsFile (file_cut f) = Unit
IsFile _ = ⊥

abbrev pub IsView : Body → Type 0
IsView (file_info f) = Unit
IsView _ = ⊥

abbrev pub IsPage : Body → Type 0
IsPage (file_page total limit page files) = Unit
IsPage _ = ⊥

abbrev pub IsStat : Body → Type 0
IsStat (stat_info s) = Unit
IsStat _ = ⊥

abbrev pub IsAlias : Body → Type 0
IsAlias (uploaded_as alias) = Unit
IsAlias _ = ⊥

abbrev pub IsEmpty : Body → Type 0
IsEmpty empty_response = Unit
IsEmpty _ = ⊥

abbrev pub IsErrors : Body → Type 0
IsErrors (errors messages) = Unit
IsErrors _ = ⊥

-- The status and the body of a route's success.
abbrev pub Success : Route → Reply → Type 0
Success (get_download alias password) r = (r.status ≡ 200) × IsFile r.body
Success (post_upload form) r = (r.status ≡ 201) × IsAlias r.body
Success (get_files page limit) r = (r.status ≡ 200) × IsPage r.body
Success get_stat r = (r.status ≡ 200) × IsStat r.body
Success (get_info alias) r = (r.status ≡ 200) × IsView r.body
Success (delete_info alias) r = (r.status ≡ 204) × IsEmpty r.body
Success (admin_files id page limit) r = (r.status ≡ 200) × IsPage r.body
Success (admin_stat id) r = (r.status ≡ 200) × IsStat r.body
Success (admin_get alias) r = (r.status ≡ 200) × IsView r.body
Success (admin_delete alias) r = (r.status ≡ 204) × IsEmpty r.body

abbrev pub among : List ℕ → ℕ → Bool
among [] n = false
among (c ∷ cs) n = eqb c n || among cs n

-- The statuses of the errors of the file service, and of those of NewAuth.
abbrev pub of_files : List ℕ
of_files = 401 ∷ 403 ∷ 404 ∷ 413 ∷ 500 ∷ []

abbrev pub of_auth : List ℕ
of_auth = 401 ∷ 404 ∷ 409 ∷ 422 ∷ 429 ∷ 500 ∷ []

-- The statuses of a route's failures.
abbrev pub failures : Route → List ℕ
failures (get_download alias password) = 429 ∷ of_files
failures (post_upload form) = 400 ∷ 403 ∷ 413 ∷ of_auth
failures (get_files page limit) = of_auth
failures get_stat = of_auth
failures (get_info alias) = 403 ∷ 413 ∷ of_auth
failures (delete_info alias) = 403 ∷ 413 ∷ of_auth
failures (admin_files id page limit) = 401 ∷ 429 ∷ 500 ∷ []
failures (admin_stat id) = 401 ∷ 429 ∷ 500 ∷ []
failures (admin_get alias) = 429 ∷ of_files
failures (admin_delete alias) = 429 ∷ of_files

-- A reply of the route's type; or nothing is written.
abbrev pub Typed : (Reply → Type 0) → List ℕ → Written → Type 0
Typed good codes none = Unit {0}
Typed good codes (some r) = good r ⊎ ((among codes r.status ≡ true) × IsErrors r.body)

module _ (good : Reply → Type 0) (codes : List ℕ) where
  -- Every status of the first list is one of `codes`.
  abbrev pub Covers : List ℕ → Type 0
  Covers cs = (c : ℕ) → among cs c ≡ true → among codes c ≡ true

  failed :
      (status : ℕ) (messages : List String)
      → among codes status ≡ true
      → Typed good codes (some (record { status = status; body = errors messages }))
  failed status messages h = inr (h, tt)

  or_internal-Typed :
      among codes 500 ≡ true
      → (x : Written) (e : Error) → Typed good codes x
      → Typed good codes (or_internal x e)
  or_internal-Typed h (some r) e k = k
  or_internal-Typed h none e k = elim (Bool-cases (is_ctx_error e)) [
    | inl c ↦ rw c tt
    | inr c ↦ rw c (inr (h, tt))
  ]

  file_cause-Typed : Covers of_files → (c : Cause) → Typed good codes (file_cause c)
  file_cause-Typed k Cause.file_not_found = failed 404 _ (k 404 refl)
  file_cause-Typed k Cause.file_password_required = failed 401 _ (k 401 refl)
  file_cause-Typed k Cause.file_password_invalid = failed 403 _ (k 403 refl)
  file_cause-Typed k Cause.file_size_too_big = failed 413 _ (k 413 refl)
  file_cause-Typed k Cause.forbidden = failed 403 _ (k 403 refl)
  file_cause-Typed k Cause.upload_limit_exceeded = failed 403 _ (k 403 refl)
  file_cause-Typed k _ = tt

  pub file_failure-Typed : Covers of_files → (e : Error) → Typed good codes (file_failure e)
  unfolding file_failure
  file_failure-Typed k e = or_internal-Typed (k 500 refl) _ e (file_cause-Typed k e.cause)

  pub plain_failure-Typed :
      among codes 500 ≡ true → (e : Error) → Typed good codes (plain_failure e)
  unfolding plain_failure
  plain_failure-Typed h e = or_internal-Typed h none e tt

  auth_cause-Typed :
      Covers of_auth → (message : String) (c : Cause) → Typed good codes (auth_cause message c)
  auth_cause-Typed k message Cause.access_token_expired = failed 401 _ (k 401 refl)
  auth_cause-Typed k message Cause.access_token_revoked = failed 401 _ (k 401 refl)
  auth_cause-Typed k message Cause.invalid_argument = failed 422 _ (k 422 refl)
  auth_cause-Typed k message Cause.invalid_access_token = failed 401 _ (k 401 refl)
  auth_cause-Typed k message Cause.user_already_exists = failed 409 _ (k 409 refl)
  auth_cause-Typed k message Cause.role_not_exist = failed 404 _ (k 404 refl)
  auth_cause-Typed k message Cause.too_many_requests = failed 429 _ (k 429 refl)
  auth_cause-Typed k message Cause.user_not_found = failed 404 _ (k 404 refl)
  auth_cause-Typed k message Cause.invalid_credentials = failed 401 _ (k 401 refl)
  auth_cause-Typed k message Cause.invalid_refresh_token = failed 401 _ (k 401 refl)
  auth_cause-Typed k message _ = tt

  pub auth_failure-Typed :
      Covers of_auth → (e : Error) → Typed good codes (render_auth_service_error e)
  unfolding render_auth_service_error
  auth_failure-Typed k e = auth_cause-Typed k e.message e.cause

  pub middlewares-Typed : Covers (401 ∷ 429 ∷ 500 ∷ []) → Refusals (Typed good codes)
  middlewares-Typed k = record {
    internal = failed 500 _ (k 500 refl);
    none_given = failed 401 _ (k 401 refl);
    many = failed 429 _ (k 429 refl);
  }
