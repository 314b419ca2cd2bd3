-- ===== src/Http/Serving.antt =====
-- What a request on files keeps: any property of the state that each use case keeps, behind every
-- middleware and in every handler.
use expire_share_api.Prelude.{ℕ, ℤ, String, Option, none, some, ◌≡◌, refl, arith}
use expire_share_api.Domain.{
  AliasCommand, UploadFile, DownloadFile, GetAllFiles, RequestingUserInfo,
}
use expire_share_api.World.{World, Stored, read_clock, opened_file, close_file, with_handle}
use expire_share_api.Files.{
  upload_file, download_file, delete_file as erase, get_file, get_all_files, get_files_stat,
}
use expire_share_api.Http.Text.{extract_ip, scan_pagination_args}
use expire_share_api.Http.Reply.{Handler, UserClaims}
use expire_share_api.Http.FileHandlers.{
  Form, ServiceConfig, Parsed, parsed, invalid, form_downloads, get_request_from_form,
  upload_parsed, after_download, upload_handler, download_handler, delete_handler, get_handler,
  get_all_handler, stat_handler, page_command, requesting, UploadRequest,
}
use expire_share_api.Http.Middlewares.{Server, rate_limiter, admin_user_context, admin_user_context}
use expire_share_api.Http.Routes.{
  App, Arrival, Route, serve, on_world, user_route, admin_route, file_service, get_download,
  post_upload, get_files, get_stat, get_info, delete_info, admin_files, admin_stat, admin_get,
  admin_delete,
}
use expire_share_api.Http.Leaves.{
  Leaves, claims_of, on_world-Leaves, respond-Leaves, auth-Leaves, admin_auth-Leaves,
  limited-Leaves,
}

-- What holds of each count of downloads that a form is read as.
abbrev pub Admits : (ℤ → Type 0) → ServiceConfig → Type 0
Admits D cfg = (text : String) (n : ℤ) → form_downloads cfg text ≡ parsed n → D n

form-downloads :
    (cfg : ServiceConfig) (parse_duration : String → Option ℤ) (form : Form) (r : UploadRequest)
    → get_request_from_form parse_duration cfg form ≡ parsed r
    → form_downloads cfg form.max_downloads ≡ parsed r.max_downloads
unfolding get_request_from_form
form-downloads cfg parse_duration form r h = ground arith

-- Each use case keeps `P`, a download or a deletion where `S` holds of its alias. The handler of the upload has the form's file open meanwhile, and the
-- download is taken up to the point where the handler closes the file.
pub record Keeps (D : ℤ → Type 0) (S : String → World → Type 0) (P : World → Type 0) (app : App)
    (a : Arrival) : Type 0 where
  pub upload :
      (cmd : UploadFile) (w : World)
      → D cmd.max_downloads
      → P w
      → P (
          close_file (upload_file app.platform app.permissions cmd a.alias a.env (opened_file w)).1)
  pub download :
      (cmd : DownloadFile) (w : World)
      → S cmd.alias w
      → P w
      → P (after_download app.type_of a.copied (download_file app.platform cmd a.env w)).1
  pub delete :
      (cmd : AliasCommand) (w : World) → S cmd.alias w → P w → P (erase app.platform cmd a.env w).1
  pub get :
      (now : ℕ) (cmd : AliasCommand) (w : World) → P w → P (get_file app.platform now cmd a.env w).1
  pub list : (now : ℕ) (cmd : GetAllFiles) (w : World) → P w → P (get_all_files now cmd a.env w).1
  pub stat :
      (user : RequestingUserInfo) (w : World)
      → P w
      → P (get_files_stat app.permissions user a.env w).1

-- `S` holds of the alias by which the request asks for a file to download or to delete.
abbrev pub Suits : (String → World → Type 0) → World → Route → Type 0
Suits S w (get_download alias password) = S alias w
Suits S w (delete_info alias) = S alias w
Suits S w (admin_delete alias) = S alias w
Suits S w _ = Unit

abbrev pub Any : String → World → Type 0
Any alias w = Unit

pub Suits-Any : (w : World) (route : Route) → Suits Any w route
Suits-Any w (get_download alias password) = tt
Suits-Any w (post_upload form) = tt
Suits-Any w (get_files page limit) = tt
Suits-Any w get_stat = tt
Suits-Any w (get_info alias) = tt
Suits-Any w (delete_info alias) = tt
Suits-Any w (admin_files id page limit) = tt
Suits-Any w (admin_stat id) = tt
Suits-Any w (admin_get alias) = tt
Suits-Any w (admin_delete alias) = tt

module _ (D : ℤ → Type 0) (S : String → World → Type 0) (P : World → Type 0) (app : App)
    (a : Arrival) (k : Keeps D S P app a) (w : World) (c : P w) where
  upload_parsed-Keeps :
      (claims : UserClaims) (form : Form) (r : Parsed UploadRequest) (file : Option Stored)
      → ((q : UploadRequest) → r ≡ parsed q → D q.max_downloads)
      → P (upload_parsed (file_service app a) claims form r file a.env w).1
  unfolding file_service with_handle
  upload_parsed-Keeps claims form (invalid e) file d = c
  upload_parsed-Keeps claims form (parsed q) none d = c
  upload_parsed-Keeps claims form (parsed q) (some file) d =
      respond-Leaves P _ _ _ a.env w (k.upload _ w (d q refl) c)

  upload-Keeps :
      (claims : UserClaims) (form : Option Form)
      → Admits D app.service
      → P
          (upload_handler
            (file_service app a)
            app.parse_duration
            app.service
            (some claims)
            form
            a.env
            w).1
  unfolding upload_handler
  upload-Keeps claims none d = c
  upload-Keeps claims (some form) d = upload_parsed-Keeps claims form _ form.file (λ q e.
      d form.max_downloads q.max_downloads (form-downloads app.service app.parse_duration form q e))

  delete-Keeps :
      (claims : UserClaims) (alias : String)
      → S alias w
      → P (delete_handler (file_service app a) (some claims) alias a.env w).1
  unfolding delete_handler file_service
  delete-Keeps claims alias spelled =
      let cmd : AliasCommand = record { alias = alias; user = requesting claims } in
      respond-Leaves P (erase app.platform cmd) _ _ a.env w (k.delete cmd w spelled c)

  get-Keeps :
      (claims : UserClaims) (alias : String)
      → P (get_handler (file_service app a) (some claims) alias a.env w).1
  unfolding get_handler file_service
  get-Keeps claims alias =
      respond-Leaves P
        (λ env.
          get_file app.platform (env.now read_clock)
            (record { alias = alias; user = requesting claims }) env)
        _ _ a.env w (k.get _ _ w c)

  get_all-Keeps :
      (claims : UserClaims) (page limit : String)
      → P (get_all_handler (file_service app a) (some claims) page limit a.env w).1
  unfolding get_all_handler file_service
  get_all-Keeps claims page limit =
      let cmd = page_command (file_service app a) claims (scan_pagination_args page limit) in
      respond-Leaves P (λ env. get_all_files (env.now read_clock) cmd env) _ _ a.env w
        (k.list _ cmd w c)

  stat-Keeps : (claims : UserClaims) → P (stat_handler (file_service app a) (some claims) a.env w).1
  unfolding stat_handler file_service
  stat-Keeps claims =
      respond-Leaves P (get_files_stat app.permissions (requesting claims)) _ _ a.env w
        (k.stat (requesting claims) w c)

  download-Keeps :
      (alias password : String)
      → S alias w
      → P
          (download_handler
            (download_file app.platform)
            app.type_of
            a.copied
            alias
            password
            a.env
            w).1
  unfolding download_handler
  download-Keeps alias password spelled = k.download _ w spelled c

module _ (P : World → Type 0) (app : App) (a : Arrival) (s : Server) (c : P s.world) where
  user_route-Keeps :
      (h : Option UserClaims → Handler)
      → ((k : UserClaims) → P (h (some k) a.env s.world).1)
      → Leaves P (user_route app a h s)
  user_route-Keeps h f =
      auth-Leaves P app.validate a.authorization (λ k. on_world (h (some k)) a.env) s c
        (λ v _. on_world-Leaves P (h (some (claims_of v))) a.env s (f (claims_of v)))

  admin_route-Keeps :
      (h : Handler) → P (h a.env s.world).1 → Leaves P (admin_route app a (on_world h a.env) s)
  admin_route-Keeps h f =
      admin_auth-Leaves P app.admin_limit a.asked app.decode app.secret a.remote_addr
        a.authorization (on_world h a.env) s c
        (λ m _. on_world-Leaves P h a.env (record s { counters = m }) f)

-- Any request on a file route, with any headers and whatever its calls meet.
module _ (D : ℤ → Type 0) (S : String → World → Type 0) (P : World → Type 0) (app : App)
    (d : Admits D app.service) where
  pub serve-Keeps :
      (a : Arrival)
      → Keeps D S P app a
      → (s : Server) (route : Route) → Suits S s.world route
      → P s.world
      → Leaves P (serve app a route s)
  unfolding serve rate_limiter
  serve-Keeps a k s (get_download alias password) h c =
      let handler =
        download_handler (download_file app.platform) app.type_of a.copied alias password in
      limited-Leaves P app.files_limit a.asked (extract_ip a.remote_addr) (on_world handler a.env) s
        c
        (λ m.
          on_world-Leaves P handler a.env (record s { counters = m })
            (download-Keeps D S P app a k s.world c alias password h))
  serve-Keeps a k s (post_upload form) h c =
      user_route-Keeps P app a s c
        (λ q. upload_handler (file_service app a) app.parse_duration app.service q form)
        (λ q. upload-Keeps D S P app a k s.world c q form d)
  serve-Keeps a k s (get_files page limit) h c =
      user_route-Keeps P app a s c (λ q. get_all_handler (file_service app a) q page limit)
        (λ q. get_all-Keeps D S P app a k s.world c q page limit)
  serve-Keeps a k s get_stat h c =
      user_route-Keeps P app a s c (λ q. stat_handler (file_service app a) q)
        (λ q. stat-Keeps D S P app a k s.world c q)
  serve-Keeps a k s (get_info alias) h c =
      user_route-Keeps P app a s c (λ q. get_handler (file_service app a) q alias)
        (λ q. get-Keeps D S P app a k s.world c q alias)
  serve-Keeps a k s (delete_info alias) h c =
      user_route-Keeps P app a s c (λ q. delete_handler (file_service app a) q alias)
        (λ q. delete-Keeps D S P app a k s.world c q alias h)
  serve-Keeps a k s (admin_files id page limit) h c =
      let q = admin_user_context id in
      admin_route-Keeps P app a s c (get_all_handler (file_service app a) (some q) page limit)
        (get_all-Keeps D S P app a k s.world c q page limit)
  serve-Keeps a k s (admin_stat id) h c =
      let q = admin_user_context id in
      admin_route-Keeps P app a s c (stat_handler (file_service app a) (some q))
        (stat-Keeps D S P app a k s.world c q)
  serve-Keeps a k s (admin_get alias) h c =
      let q = admin_user_context "" in
      admin_route-Keeps P app a s c (get_handler (file_service app a) (some q) alias)
        (get-Keeps D S P app a k s.world c q alias)
  serve-Keeps a k s (admin_delete alias) h c =
      let q = admin_user_context "" in
      admin_route-Keeps P app a s c (delete_handler (file_service app a) (some q) alias)
        (delete-Keeps D S P app a k s.world c q alias h)
