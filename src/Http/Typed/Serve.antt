-- ===== src/Http/Typed/Serve.antt =====
-- Every route of files answers by its type.
use expire_share_api.Prelude.{
  ℕ, String, Option, none, some, [], ◌∷◌, true, ◌≡◌, inl, inr, refl, arith,
}
use expire_share_api.Domain.{FileInfo, StatResult}
use expire_share_api.World.{World, Result, ok, err, Stored, Done}
use expire_share_api.Storage.{Opened}
use expire_share_api.Files.{download_file}
use expire_share_api.Http.Text.{extract_ip, scan_pagination_args}
use expire_share_api.Http.Reply.{
  Written, Reply, file_info, stat_info, empty_response, UserClaims, Handler,
}
use expire_share_api.Http.Responses.{file_failure, plain_failure}
use expire_share_api.Http.FileHandlers.{
  Form, Parsed, parsed, invalid, UploadRequest, Copied, complete, disconnected, broken_after_header,
  broken_before_header, upload_parsed, upload_handler, download_handler, after_download,
  get_handler, get_all_handler, stat_handler, delete_handler, get_request_from_form, requesting,
  view_of, page_command, page_reply,
}
use expire_share_api.Http.Middlewares.{Server, rate_limiter, admin_user_context}
use expire_share_api.Http.Routes.{
  App, Arrival, Route, serve, on_world, user_route, admin_route, file_service, get_download,
  post_upload, get_files, get_stat, get_info, delete_info, admin_files, admin_stat, admin_get,
  admin_delete,
}
use expire_share_api.Http.Answers.{
  respond-Answers, on_world-Answers, limited-Answers, user_route-Answers, admin_route-Answers,
}
use expire_share_api.Http.Typed.{
  Success, failures, Typed, among, of_files, of_auth, IsPage, Covers, file_failure-Typed,
  plain_failure-Typed, auth_failure-Typed, middlewares-Typed,
}

module _ (app : App) (a : Arrival) where
  abbrev Fits : Route → Written → Type 0
  Fits route w = Typed (Success route) (failures route) w

  copied-Typed :
      (alias password : String) (end : Copied) (x : Result Opened × World)
      → Fits (get_download alias password) (after_download app.type_of end x).0
  copied-Typed alias password complete (ok o, w) = inl (refl, tt)
  copied-Typed alias password disconnected (ok o, w) = inl (refl, tt)
  copied-Typed alias password broken_after_header (ok o, w) = inl (refl, tt)
  copied-Typed alias password broken_before_header (ok o, w) = inr (refl, tt)
  copied-Typed alias password end (err e, w) =
      let route = get_download alias password in
      file_failure-Typed (Success route) (failures route) (λ c h. ground arith) e

  upload-Typed :
      (form : Option Form) (c : UserClaims) (f : Form) (r : Parsed UploadRequest)
      (file : Option Stored) (w : World)
      → Fits (post_upload form) (upload_parsed (file_service app a) c f r file a.env w).0
  upload-Typed form c f (invalid e) file w = inr (refl, tt)
  upload-Typed form c f (parsed q) none w = inr (refl, tt)
  upload-Typed form c f (parsed q) (some file) w =
      let route = post_upload form in
      respond-Answers (Fits route) _ _ _ (λ alias. inl (refl, tt))
        (λ e. file_failure-Typed (Success route) (failures route) (λ c h. ground arith) e) a.env w

  form-Typed :
      (form : Option Form) (c : UserClaims) (w : World)
      → Fits
          (post_upload form)
          (upload_handler
            (file_service app a)
            app.parse_duration
            app.service
            (some c)
            form
            a.env
            w).0
  unfolding upload_handler
  form-Typed none c w = inr (refl, tt)
  form-Typed (some f) c w =
      upload-Typed (some f) c f (get_request_from_form app.parse_duration app.service f) f.file w

  -- Behind the middlewares of a user's route and of an administrator's.
  user-Typed :
      (route : Route) (h : Option UserClaims → Handler) (s : Server)
      → Covers (Success route) (failures route) of_auth
      → ((c : UserClaims) (w : World) → Fits route (h (some c) a.env w).0)
      → Fits route (user_route app a h s).0
  user-Typed route h s k f =
      let covers = λ (c : ℕ) (m : among (401 ∷ 429 ∷ 500 ∷ []) c ≡ true). k c (ground arith) in
      user_route-Answers (Fits route) (middlewares-Typed (Success route) (failures route) covers)
        (auth_failure-Typed (Success route) (failures route) k) app a h s f

  admin-Typed :
      (route : Route) (h : Handler) (s : Server)
      → Covers (Success route) (failures route) (401 ∷ 429 ∷ 500 ∷ [])
      → ((w : World) → Fits route (h a.env w).0)
      → Fits route (admin_route app a (on_world h a.env) s).0
  admin-Typed route h s k f =
      admin_route-Answers (Fits route) (middlewares-Typed (Success route) (failures route) k) app a
        h s f

  get-Typed :
      (route : Route)
      → Covers (Success route) (failures route) of_files
      → ((f : FileInfo)
          → Success route
              (record { status = 200; body = file_info (view_of (file_service app a) f) }))
      → (q : UserClaims) (alias : String) (w : World)
      → Fits route (get_handler (file_service app a) (some q) alias a.env w).0
  unfolding get_handler
  get-Typed route k g q alias w =
      respond-Answers (Fits route)
        ((file_service app a).get_file_by_alias (record { alias = alias; user = requesting q }))
        (λ f. some (record { status = 200; body = file_info (view_of (file_service app a) f) }))
        file_failure (λ f. inl (g f)) (file_failure-Typed (Success route) (failures route) k) a.env
        w

  delete-Typed :
      (route : Route)
      → Covers (Success route) (failures route) of_files
      → ((d : Done) → Success route (record { status = 204; body = empty_response }))
      → (q : UserClaims) (alias : String) (w : World)
      → Fits route (delete_handler (file_service app a) (some q) alias a.env w).0
  unfolding delete_handler
  delete-Typed route k g q alias w =
      respond-Answers (Fits route)
        ((file_service app a).delete_file (record { alias = alias; user = requesting q }))
        (λ d. some (record { status = 204; body = empty_response })) file_failure (λ d. inl (g d))
        (file_failure-Typed (Success route) (failures route) k) a.env w

  stat-Typed :
      (route : Route)
      → among (failures route) 500 ≡ true
      → ((r : StatResult) → Success route (record { status = 200; body = stat_info r }))
      → (q : UserClaims) (w : World)
      → Fits route (stat_handler (file_service app a) (some q) a.env w).0
  unfolding stat_handler
  stat-Typed route k g q w =
      respond-Answers (Fits route) ((file_service app a).get_files_stat (requesting q))
        (λ r. some (record { status = 200; body = stat_info r })) plain_failure (λ r. inl (g r))
        (plain_failure-Typed (Success route) (failures route) k) a.env w

  list-Typed :
      (route : Route)
      → among (failures route) 500 ≡ true
      → ((r : Reply) → (r.status ≡ 200) × IsPage r.body → Success route r)
      → (q : UserClaims) (page limit : String) (w : World)
      → Fits route (get_all_handler (file_service app a) (some q) page limit a.env w).0
  unfolding get_all_handler
  list-Typed route k g q page limit w =
      let args = scan_pagination_args page limit in
      let service = file_service app a in
      respond-Answers (Fits route) (service.get_all_files (page_command service q args))
        (page_reply service args) plain_failure (λ r. inl (g _ (refl, tt)))
        (plain_failure-Typed (Success route) (failures route) k) a.env w

  fetch-Typed :
      (alias password : String) (s : Server)
      → Fits (get_download alias password) (serve app a (get_download alias password) s).0
  unfolding serve rate_limiter download_handler
  fetch-Typed alias password s =
      let route = get_download alias password in
      let h = download_handler (download_file app.platform) app.type_of a.copied alias password in
      limited-Answers (Fits route)
        (middlewares-Typed (Success route) (failures route) (λ c m. ground arith)) app.files_limit
        a.asked (extract_ip a.remote_addr) (on_world h a.env) s
        (λ u. on_world-Answers (Fits route) h a.env u (copied-Typed alias password a.copied _))

  -- Whatever arrives, whatever its calls meet and whatever state the server is in: a reply on a route
  -- of files has the route's own body under its own status, 200, 201 for an upload and 204 for a
  -- deletion, or it has a list of errors under one of the statuses that `failures` lists for the
  -- route; or nothing is written.
  pub serve-Typed : (s : Server) (route : Route) → Fits route (serve app a route s).0
  unfolding serve rate_limiter
  serve-Typed s (get_download alias password) = fetch-Typed alias password s
  serve-Typed s (post_upload form) =
      user-Typed (post_upload form)
        (λ q. upload_handler (file_service app a) app.parse_duration app.service q form) s
        (λ c m. ground arith) (λ c w. form-Typed form c w)
  serve-Typed s (get_files page limit) =
      user-Typed (get_files page limit) (λ q. get_all_handler (file_service app a) q page limit) s
        (λ c m. ground arith) (λ q. list-Typed (get_files page limit) refl (λ r h. h) q page limit)
  serve-Typed s get_stat =
      user-Typed get_stat (λ q. stat_handler (file_service app a) q) s (λ c m. ground arith)
        (λ q. stat-Typed get_stat refl (λ r. (refl, tt)) q)
  serve-Typed s (get_info alias) =
      user-Typed (get_info alias) (λ q. get_handler (file_service app a) q alias) s
        (λ c m. ground arith)
        (λ q. get-Typed (get_info alias) (λ c m. ground arith) (λ f. (refl, tt)) q alias)
  serve-Typed s (delete_info alias) =
      user-Typed (delete_info alias) (λ q. delete_handler (file_service app a) q alias) s
        (λ c m. ground arith)
        (λ q. delete-Typed (delete_info alias) (λ c m. ground arith) (λ d. (refl, tt)) q alias)
  serve-Typed s (admin_files id page limit) =
      admin-Typed (admin_files id page limit)
        (get_all_handler (file_service app a) (some (admin_user_context id)) page limit) s
        (λ c m. ground arith)
        (list-Typed (admin_files id page limit) refl (λ r h. h) (admin_user_context id) page limit)
  serve-Typed s (admin_stat id) =
      admin-Typed (admin_stat id) (stat_handler (file_service app a) (some (admin_user_context id)))
        s (λ c m. ground arith)
        (stat-Typed (admin_stat id) refl (λ r. (refl, tt)) (admin_user_context id))
  serve-Typed s (admin_get alias) =
      admin-Typed (admin_get alias)
        (get_handler (file_service app a) (some (admin_user_context "")) alias) s
        (λ c m. ground arith)
        (get-Typed (admin_get alias) (λ c m. ground arith) (λ f. (refl, tt)) (admin_user_context "")
          alias)
  serve-Typed s (admin_delete alias) =
      admin-Typed (admin_delete alias)
        (delete_handler (file_service app a) (some (admin_user_context "")) alias) s
        (λ c m. ground arith)
        (delete-Typed (admin_delete alias) (λ c m. ground arith) (λ d. (refl, tt))
          (admin_user_context "") alias)
