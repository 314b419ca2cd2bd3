-- ===== src/Http/Failures.antt =====
-- How an error of a service is answered.
use expire_share_api.Prelude.{ℤ, ◌≤◌, ◌≡◌, ◌⊎◌, inr, refl, none, some, true, Option, String, arith}
use expire_share_api.Domain.{Error, Cause, is_ctx_error}
use expire_share_api.World.{World, Env, err, Stored, with_handle}
use expire_share_api.Http.Reply.{Reply, Written, UserClaims, respond}
use expire_share_api.Http.Responses.{file_failure, plain_failure, or_internal, file_cause}
use expire_share_api.Http.FileHandlers.{
  FileService, ServiceConfig, Form, Parsed, parsed, invalid, UploadRequest, Copied, upload_parsed,
  get_request_from_form, upload_handler, download_handler, get_handler, get_all_handler,
  stat_handler, delete_handler,
}

-- An error status, or nothing where the request's context is over.
abbrev pub Refuses : Error → Written → Type 0
Refuses e written =
    ((written ≡ none) × (is_ctx_error e ≡ true))
    ⊎ ((r : Reply) × (written ≡ some r) × (400 ≤ r.status))

-- An answer that is an error status or nothing.
abbrev pub IsError : Written → Type 0
IsError none = Unit
IsError (some r) = 400 ≤ r.status

file_cause-IsError : (c : Cause) → IsError (file_cause c)
file_cause-IsError c = ground arith

or_internal-Refuses : (w : Written) (e : Error) → IsError w → Refuses e (or_internal w e)
or_internal-Refuses none e h = ground arith
or_internal-Refuses (some r) e h = inr (r, refl, h)

file_failure-Refuses : (e : Error) → Refuses e (file_failure e)
unfolding file_failure
file_failure-Refuses e = or_internal-Refuses _ e (file_cause-IsError e.cause)

plain_failure-Refuses : (e : Error) → Refuses e (plain_failure e)
unfolding plain_failure
plain_failure-Refuses e = or_internal-Refuses none e tt

-- A service that fails with one error, whatever it is asked.
abbrev pub failing : Error → FileService
failing e = record {
  upload_file = λ _ _ w. (err e, w);
  download_file = λ _ _ w. (err e, w);
  get_file_by_alias = λ _ _ w. (err e, w);
  get_all_files = λ _ _ w. (err e, w);
  get_files_stat = λ _ _ w. (err e, w);
  delete_file = λ _ _ w. (err e, w);
}

module _ (parse_duration : String → Option ℤ) (cfg : ServiceConfig) (e : Error) (c : UserClaims)
    (env : Env) (w : World) where
  upload_parsed-Refuses :
      (form : Form) (r : Parsed UploadRequest) (file : Option Stored)
      → Refuses e (upload_parsed (failing e) c form r file env w).0
  unfolding respond with_handle
  upload_parsed-Refuses form (invalid text) file = inr (_, refl, omega arith)
  upload_parsed-Refuses form (parsed q) none = inr (_, refl, omega arith)
  upload_parsed-Refuses form (parsed q) (some file) = file_failure-Refuses e

  upload-Refuses :
      (form : Option Form)
      → Refuses e (upload_handler (failing e) parse_duration cfg (some c) form env w).0
  unfolding upload_handler
  upload-Refuses none = inr (_, refl, omega arith)
  upload-Refuses (some form) =
      upload_parsed-Refuses form (get_request_from_form parse_duration cfg form) form.file

  -- Whatever error the service fails with, every handler of files answers it with a status from 400
  -- on, and writes nothing only where the request's context is over; an upload's form may be any.
  pub handlers-Refuse :
      (form : Option Form) (alias password page limit : String) (type_of : String → String)
      (end : Copied)
      → Refuses e (upload_handler (failing e) parse_duration cfg (some c) form env w).0
        × Refuses e (download_handler (λ _ _ u. (err e, u)) type_of end alias password env w).0
        × Refuses e (get_handler (failing e) (some c) alias env w).0
        × Refuses e (get_all_handler (failing e) (some c) page limit env w).0
        × Refuses e (stat_handler (failing e) (some c) env w).0
        × Refuses e (delete_handler (failing e) (some c) alias env w).0
  unfolding download_handler get_handler get_all_handler stat_handler delete_handler respond
  handlers-Refuse form alias password page limit type_of end = (
    upload-Refuses form,
    file_failure-Refuses e,
    file_failure-Refuses e,
    plain_failure-Refuses e,
    plain_failure-Refuses e,
    file_failure-Refuses e,
  )
