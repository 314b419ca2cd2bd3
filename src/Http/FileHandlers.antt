-- ===== src/Http/FileHandlers.antt =====
-- internal/delivery/handlers/api: upload, download, and files/get, getAll, stat and delete. The
-- service is an interface that the handlers take; Routes gives them the Service of Files.
use Prim.Native.String
use expire_share_api.Prelude.{
  ℕ, String, Option, none, some, ◌==◌, ◌||◌, if◌then◌else◌, ltb_ℤ, ℤ, pos, map,
}
use expire_share_api.Domain.{
  UploadFile, DownloadFile, AliasCommand, GetAllFiles, FileInfo, AllFiles, StatResult,
  RequestingUserInfo,
}
use expire_share_api.World.{World, Result, ok, err, Action, Done, close_file, with_handle, Stored}
use expire_share_api.Storage.{Opened}
use expire_share_api.Http.Text.{parse_int, scan_pagination_args, time_string}
use expire_share_api.Http.Reply.{
  Written, Handler, UserClaims, FileView, FileReply, empty_response, uploaded_as, file_sent,
  file_cut, file_info, file_page, stat_info, respond,
}
use expire_share_api.Http.Responses.{render_error, internal_error, file_failure, plain_failure}

-- The service as the handlers see it: FileUploader, FileDownloader, FileGetter, AllFilesGetter,
-- FilesStatGetter and FileDeleter.
pub record FileService : Type 0 where
  pub upload_file : UploadFile → Action String
  pub download_file : DownloadFile → Action Opened
  pub get_file_by_alias : AliasCommand → Action FileInfo
  pub get_all_files : GetAllFiles → Action AllFiles
  pub get_files_stat : RequestingUserInfo → Action StatResult
  pub delete_file : AliasCommand → Action Done

-- `claims, err := middlewares.GetUserClaims(r)`, and 500 where there are none.
abbrev pub with_claims : Option UserClaims → (UserClaims → Handler) → Handler
with_claims none k env w = (internal_error, w)
with_claims (some c) k env w = k c env w

abbrev pub requesting : UserClaims → RequestingUserInfo
requesting c = record { user_id = c.user_id; roles = c.roles }

-- config.Service, as the form reads it.
pub record ServiceConfig : Type 0 where
  pub max_downloads : ℤ
  pub default_ttl : ℤ

-- What is left of the multipart form when it is parsed; `file` is missing where the form has none.
pub record Form : Type 0 where
  pub max_downloads : String
  pub ttl : String
  pub password : String
  pub file : Option Stored
  pub filesize : ℕ

-- The Request of upload.go.
pub record UploadRequest : Type 0 where
  pub max_downloads : ℤ
  pub ttl : ℤ
  pub password : String

-- A value, or the text of the error.
pub data Parsed (A : Type 0) : Type 0 where
  parsed : A → Parsed A
  invalid : String → Parsed A

abbrev pub bounded_downloads : Option ℤ → Parsed ℤ
bounded_downloads none = invalid "max_downloads must be a number"
bounded_downloads (some n) =
    if ltb_ℤ n (pos 1) || ltb_ℤ (pos 10000) n
    then invalid "max_downloads must be between 1 and 10000"
    else parsed n

unfoldable pub form_downloads : ServiceConfig → String → Parsed ℤ
form_downloads cfg text =
    if text == "" then parsed cfg.max_downloads else bounded_downloads (parse_int 16 text)

abbrev ttl_or_error : Option ℤ → Parsed ℤ
ttl_or_error none = invalid "ttl must be like '1h30m'"
ttl_or_error (some d) = parsed d

-- `parse_duration` is time.ParseDuration.
form_ttl : (String → Option ℤ) → ServiceConfig → String → Parsed ℤ
form_ttl parse_duration cfg text =
    if text == "" then parsed cfg.default_ttl else ttl_or_error (parse_duration text)

abbrev pub request_of : Form → Parsed ℤ → Parsed ℤ → Parsed UploadRequest
request_of form (invalid e) ttl = invalid e
request_of form (parsed n) (invalid e) = invalid e
request_of form (parsed n) (parsed d) =
    parsed (record { max_downloads = n; ttl = d; password = form.password })

-- getRequestFromForm
unfoldable pub get_request_from_form :
    (String → Option ℤ) → ServiceConfig → Form → Parsed UploadRequest
unfolding form_downloads form_ttl
get_request_from_form parse_duration cfg form =
    request_of form (form_downloads cfg form.max_downloads) (form_ttl parse_duration cfg form.ttl)

abbrev pub upload_command : UserClaims → Form → UploadRequest → Stored → UploadFile
upload_command claims form request file = record {
  file = file.content;
  filesize = form.filesize;
  filename = file.name;
  max_downloads = request.max_downloads;
  password = request.password;
  ttl = request.ttl;
  user = requesting claims;
}

abbrev pub created : String → Written
created alias = some (record { status = 201; body = uploaded_as alias })

module _ (service : FileService) where
  -- From the call of FormFile on. The file that it opens is closed at the end by a deferred Close.
  abbrev pub upload_parsed : UserClaims → Form → Parsed UploadRequest → Option Stored → Handler
  upload_parsed claims form (invalid e) file env w = (render_error 400 e, w)
  upload_parsed claims form (parsed request) none env w = (render_error 400 "file is required", w)
  upload_parsed claims form (parsed request) (some file) env w =
      respond (with_handle (service.upload_file (upload_command claims form request file))) created
        file_failure env w

  -- From the call of ParseMultipartForm on: `none` is a form that it does not parse.
  abbrev pub upload_form : (String → Option ℤ) → ServiceConfig → Option Form → UserClaims → Handler
  upload_form parse_duration cfg none claims env w =
      (render_error 400 "failed to parse multipart/form", w)
  upload_form parse_duration cfg (some form) claims env w =
      upload_parsed claims form (get_request_from_form parse_duration cfg form) form.file env w

  -- upload.New
  unfoldable pub upload_handler :
      (String → Option ℤ) → ServiceConfig → Option UserClaims → Option Form → Handler
  unfolding get_request_from_form respond file_failure with_handle
  upload_handler parse_duration cfg claims form =
      with_claims claims (upload_form parse_duration cfg form)

  -- delete.New
  unfoldable pub delete_handler : Option UserClaims → String → Handler
  unfolding respond file_failure
  delete_handler claims alias = with_claims claims λ c.
      respond (service.delete_file (record { alias = alias; user = requesting c }))
        (λ _. some (record { status = 204; body = empty_response })) file_failure

  abbrev pub view_of : FileInfo → FileView
  view_of f = record {
    filename = f.filename;
    filesize = f.filesize;
    downloads_left = f.downloads_left;
    expires_in = time_string f.expires_in;
  }

  -- get.New
  unfoldable pub get_handler : Option UserClaims → String → Handler
  unfolding respond file_failure
  get_handler claims alias = with_claims claims λ c.
      respond (service.get_file_by_alias (record { alias = alias; user = requesting c }))
        (λ f. some (record { status = 200; body = file_info (view_of f) })) file_failure

  abbrev pub page_reply : ℕ × ℕ → AllFiles → Written
  page_reply (page, limit) files = some (record {
    status = 200;
    body = file_page files.total limit page (map (λ f. (f.alias, view_of f)) files.files);
  })

  abbrev pub page_command : UserClaims → ℕ × ℕ → GetAllFiles
  page_command c (page, limit) = record { page = page; limit = limit; user_id = c.user_id }

  -- getAll.New, with the texts of the query's `page` and `limit`.
  unfoldable pub get_all_handler : Option UserClaims → String → String → Handler
  unfolding respond plain_failure
  get_all_handler claims page limit =
      let args = scan_pagination_args page limit in
      with_claims claims
        λ c. respond (service.get_all_files (page_command c args)) (page_reply args) plain_failure

  -- stat.New
  unfoldable pub stat_handler : Option UserClaims → Handler
  unfolding respond plain_failure
  stat_handler claims = with_claims claims λ c.
      respond (service.get_files_stat (requesting c))
        (λ s. some (record { status = 200; body = stat_info s })) plain_failure

-- How the copy of the file to the client ends: it is complete, the client has closed the
-- connection, or it breaks otherwise, when the header is sent or before.
pub data Copied : Type 0 where
  complete disconnected broken_after_header broken_before_header : Copied

-- `type_of` is mime.TypeByExtension(filepath.Ext(name)).
abbrev content_type_of : (String → String) → String → String
content_type_of type_of name =
    if type_of name == "" then "application/octet-stream" else type_of name

abbrev file_reply : (String → String) → Opened → FileReply
file_reply type_of opened = record {
  content_type = content_type_of type_of opened.entry.name;
  filename = opened.entry.name;
  content_length = String.len opened.entry.content;
  content = opened.entry.content;
}

abbrev copied : FileReply → Copied → Written
copied f complete = some (record { status = 200; body = file_sent f })
copied f disconnected = some (record { status = 200; body = file_cut f })
copied f broken_after_header = some (record { status = 200; body = file_cut f })
copied f broken_before_header = internal_error

-- download.New from the call of the service on; its deferred Close runs on every way out.
abbrev pub after_download : (String → String) → Copied → Result Opened × World → Written × World
after_download type_of end (ok opened, w) = (copied (file_reply type_of opened) end, close_file w)
after_download type_of end (err e, w) = (file_failure e, w)

-- download.New
unfoldable pub download_handler :
    (DownloadFile → Action Opened) → (String → String) → Copied → String → String → Handler
unfolding file_failure
download_handler download type_of end alias password env w =
    after_download type_of end (download (record { alias = alias; password = password }) env w)
