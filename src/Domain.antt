-- ===== src/Domain.antt =====
-- internal/domain: entities, the commands of the services, and the errors. A Go error is what
-- `errors.Is` and `Error()` show of it: the sentinel at the end of its `%w` chain and its text.
mod Errors
pub use Errors.*
use expire_share_api.Prelude.{ℕ, String, List, ℤ}

-- entities.UserRole is a string type.
abbrev pub UserRole : Type 0
UserRole = String

abbrev pub role_user : UserRole
role_user = "user"

abbrev pub role_vip : UserRole
role_vip = "vip"

abbrev pub role_admin : UserRole
role_admin = "admin"

-- entities.File. Sizes are the int64 values that the program meets, which are not
-- negative; `downloads_left` is an int16. Times are nanoseconds since the epoch.
pub record File : Type 0 where
  pub name : String
  pub size : ℕ
  pub alias : String
  pub downloads_left : ℤ
  pub password_hash : String
  pub loaded_at : ℕ
  pub expires_at : ℕ
  pub user_id : ℤ

-- entities.FilesStat
pub record FilesStat : Type 0 where
  pub user_id : ℤ
  pub count : ℕ
  pub size : ℕ

-- commands.RequestingUserInfo
pub record RequestingUserInfo : Type 0 where
  pub user_id : ℤ
  pub roles : List UserRole

-- commands.UploadFile; `file` is what the reader yields.
pub record UploadFile : Type 0 where
  pub file : String
  pub filesize : ℕ
  pub filename : String
  pub max_downloads : ℤ
  pub password : String
  pub ttl : ℤ
  pub user : RequestingUserInfo

-- commands.DownloadFile
pub record DownloadFile : Type 0 where
  pub alias : String
  pub password : String

-- commands.GetFile and commands.DeleteFile have the same fields.
pub record AliasCommand : Type 0 where
  pub alias : String
  pub user : RequestingUserInfo

-- commands.GetAllFiles
pub record GetAllFiles : Type 0 where
  pub page : ℕ
  pub limit : ℕ
  pub user_id : ℤ

-- commands.AddFile
pub record AddFile : Type 0 where
  pub filename : String
  pub filesize : ℕ
  pub alias : String
  pub max_downloads : ℤ
  pub password_hash : String
  pub ttl : ℤ
  pub user_id : ℤ

-- results.GetFile; `expires_in` is a signed duration.
pub record FileInfo : Type 0 where
  pub alias : String
  pub filename : String
  pub filesize : ℕ
  pub downloads_left : ℤ
  pub expires_in : ℤ

-- results.GetAllFiles
pub record AllFiles : Type 0 where
  pub total : ℕ
  pub files : List FileInfo

-- results.GetFilesStat
pub record StatResult : Type 0 where
  pub stat : FilesStat
  pub max_size : ℕ
  pub max_count : ℕ

-- config.Permissions, as far as the service reads it.
pub record Permissions : Type 0 where
  pub max_uploaded_files : ℕ
  pub max_files_size_for_user_in_bytes : ℕ
  pub max_files_size_for_vip_in_bytes : ℕ
