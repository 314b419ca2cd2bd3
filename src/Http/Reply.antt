-- ===== src/Http/Reply.antt =====
-- What a handler writes to http.ResponseWriter: a status and a JSON body, or a file. A handler
-- that writes nothing leaves net/http to send 200 with an empty body.
use expire_share_api.Prelude.{ℕ, ℤ, String, Option, none, some, List, Bool}
use expire_share_api.Domain.{UserRole, StatResult}
use expire_share_api.World.{Env, World, ok, err, Action}
use expire_share_api.Domain.{Error}
use expire_share_api.Http.Text.{TimeText}

-- The Response of handlers/api/files/get; the GetFile of getAll has an alias beside it.
pub record FileView : Type 0 where
  pub filename : String
  pub filesize : ℕ
  pub downloads_left : ℤ
  pub expires_in : TimeText

-- The headers of a download and what is sent of the file.
pub record FileReply : Type 0 where
  pub content_type : String
  pub filename : String
  pub content_length : ℕ
  pub content : String

-- entities.User
pub record User : Type 0 where
  pub id : ℤ
  pub login : String
  pub email : String
  pub roles : List UserRole
  pub is_admin : Bool
  pub created_at : ℤ

-- entities.TokenPair
pub record TokenPair : Type 0 where
  pub access_token : String
  pub refresh_token : String

-- The body that a Response struct of the handlers gives.
pub data Body : Type 0 where
  no_body empty_response : Body
  errors : List String → Body
  uploaded_as : String → Body
  file_sent file_cut : FileReply → Body
  file_info : FileView → Body
  file_page : ℕ → ℕ → ℕ → List (String × FileView) → Body
  stat_info : StatResult → Body
  tokens : TokenPair → ℤ → Body
  registered : ℤ → Body
  user_info : User → Body
  user_page : ℕ → ℕ → ℤ → List User → Body

pub record Reply : Type 0 where
  pub status : ℕ
  pub body : Body

-- What a handler has written.
abbrev pub Written : Type 0
Written = Option Reply

-- The status that the client sees.
abbrev pub status_of : Written → ℕ
status_of none = 200
status_of (some r) = r.status

-- A handler of the routes that work on files.
abbrev pub Handler : Type 0
Handler = Env → World → Written × World

-- middlewares.UserClaims
pub record UserClaims : Type 0 where
  pub user_id : ℤ
  pub roles : List UserRole

-- A call of the service, and what the handler writes for its value or its error.
unfoldable pub respond : {A : Type 0} → Action A → (A → Written) → (Error → Written) → Handler
respond m good bad env w =
    let (r, w') = m env w in elim r [ ok a ↦ (good a, w') | err e ↦ (bad e, w') ]
