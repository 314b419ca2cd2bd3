-- ===== src/Files.antt =====
-- internal/services/files: the use cases of the file service. Logging is left out; an error that a
-- use case passes on unchanged, and one that it wraps, are kept apart as the code does.
mod Access
pub mod Outcome
pub mod Upload
pub mod Settled
pub mod Counted
pub mod Download
pub mod Delete
pub mod Atomic
pub mod Written
pub mod Backed
pub mod Served
pub mod Erasing
pub mod Spelling
pub mod Tidy
pub mod Uploading
pub mod Spending
pub mod Counting
pub mod Consistent
pub mod Quota
pub mod Progress
pub mod Refusals
pub mod AnyOrder
pub mod Overlap
pub mod Crowd
pub mod RoundTrip
unfoldable pub use Access.*
use Prim.Native.String
use expire_share_api.Prelude.{
  ℕ, ◌+◌, ◌-◌, String, Option, none, some, List, [], ◌∷◌, ◌==◌, if◌then◌else◌, ltb, leb, ℤ, pos,
  negsuc, ltb_ℤ, map,
}
use expire_share_api.Domain.{
  File, FilesStat, UploadFile, DownloadFile, AliasCommand, GetAllFiles, AddFile, FileInfo, AllFiles,
  StatResult, Permissions, RequestingUserInfo, Error, wrap, is_ctx_error, is_not_found_or_ctx,
  is_no_user_or_ctx,
}
use expire_share_api.World.{
  Action, Done, Platform, Env, World, Call, Result, ok, err, pure, lift, gets, modify, on_error,
  call, clock, error_of, unless_success, close_file, rolled_back, hash_password, ◌>>=◌, ◌>>◌,
}
use expire_share_api.Storage.{Opened, upload, download, delete}
use expire_share_api.Repo.{
  begin, commit_work, get_files_stat_by_user_id, get_files_by_user_id, get_file_by_alias,
  add_file_tx, decrement_downloads_by_alias_tx, delete_file_tx,
}

-- `if isCtxError(err) { return err }; return fmt.Errorf("%s: %s: %w", fn, msg, err)`
abbrev pub unless_ctx : String → Error → Error
unless_ctx text e = if is_ctx_error e then e else wrap text e

-- The same with `errors.Is(err, ErrFileNotFound) || isCtxError(err)`.
abbrev pub unless_not_found : String → Error → Error
unless_not_found text e = if is_not_found_or_ctx e then e else wrap text e

abbrev unless_no_user : String → Error → Error
unless_no_user text e = if is_no_user_or_ctx e then e else wrap text e

-- bcrypt.GenerateFromPassword, where a password is given.
pub hash_given : Platform → String → Action String
hash_given p password env w =
    if password == "" then (ok "", w) else elim (env.fault hash_password) [
      | none ↦ (ok (p.bcrypt_generate env.salt password), w)
      | some f ↦
          (err (wrap "services.file.Service.UploadFile: failed to hash password" (error_of f)), w)
    ]

-- The part of UploadFile under the open transaction.
store_file : Platform → UploadFile → String → String → Action String
store_file p cmd alias hash = do
  on_error (unless_ctx "services.file.Service.UploadFile: failed to add file info") (
      add_file_tx p (record {
        filename = cmd.filename;
        filesize = cmd.filesize;
        alias = alias;
        max_downloads = cmd.max_downloads;
        password_hash = hash;
        ttl = cmd.ttl;
        user_id = cmd.user.user_id;
      }))
  on_error (unless_ctx "services.file.Service.UploadFile: failed to upload file")
      (upload cmd.file alias cmd.filename)
  on_error (wrap "services.file.Service.UploadFile: failed to upload file to storage") commit_work
  pure alias

-- Service.UploadFile; `alias` is what `alias.Gen` returns.
pub upload_file : Platform → Permissions → UploadFile → String → Action String
upload_file p cfg cmd alias = do
  stat ←
      on_error (unless_ctx "services.file.Service.UploadFile: failed to get files stat by user id")
        (get_files_stat_by_user_id cmd.user.user_id)
  on_error (wrap "services.file.Service.UploadFile: failed to upload quote")
      (lift (check_upload_quote cfg stat cmd.filesize cmd.user.roles))
  hash ← hash_given p cmd.password
  on_error (wrap "services.file.Service.UploadFile: failed to upload file") begin
  unless_success rolled_back (store_file p cmd alias hash)

-- What DownloadFile does while downloads are left.
keep_file : Opened → Action Opened
keep_file opened = do
  on_error (wrap "services.files.Service.DownloadFile: failed to commit tx") commit_work
  pure opened

-- What it does after the last download.
drop_file : Platform → DownloadFile → Opened → Action Opened
drop_file p cmd opened = do
  on_error (unless_ctx "services.files.Service.DownloadFile: failed to delete file info")
      (delete_file_tx p cmd.alias)
  on_error (unless_ctx "services.files.Service.DownloadFile: failed to delete file")
      (delete cmd.alias)
  on_error (wrap "services.files.Service.DownloadFile: failed to commit delete") commit_work
  pure opened

-- The part of DownloadFile under the open transaction.
pub count_download : Platform → DownloadFile → Opened → Action Opened
count_download p cmd opened = do
  left ←
      on_error
        (unless_ctx "services.files.Service.DownloadFile: failed to decrement downloads left")
        (decrement_downloads_by_alias_tx p cmd.alias)
  if ltb_ℤ (pos 0) left then keep_file opened else drop_file p cmd opened

abbrev closed_and_rolled_back : World → World
closed_and_rolled_back w = rolled_back (close_file w)

-- Service.DownloadFile
pub download_file : Platform → DownloadFile → Action Opened
download_file p cmd = do
  info ←
      on_error (unless_not_found "services.files.Service.DownloadFile: failed to get file by alias")
        (get_file_by_alias p cmd.alias)
  on_error (wrap "services.files.Service.DownloadFile: access denied")
      (lift (check_password p info cmd.password))
  opened ←
      on_error
        (unless_not_found
          "services.files.Service.DownloadFile: failed to download file from storage")
        (download cmd.alias)
  unless_success close_file
      (on_error (wrap "services.files.Service.DownloadFile: failed to begin tx") begin)
  unless_success closed_and_rolled_back (count_download p cmd opened)

-- The part of DeleteFile under the open transaction.
erase_file : Platform → AliasCommand → Action Done
erase_file p cmd = do
  on_error (unless_ctx "services.files.Service.DeleteFile: failed to delete file info")
      (delete_file_tx p cmd.alias)
  on_error (unless_ctx "services.files.Service.DeleteFile: failed to delete file from storage")
      (delete cmd.alias)
  on_error (wrap "services.files.Service.DeleteFile: failed to commit tx") commit_work

-- Service.DeleteFile
pub delete_file : Platform → AliasCommand → Action Done
delete_file p cmd = do
  info ←
      on_error (unless_not_found "services.files.Service.DeleteFile: failed to get file by alias")
        (get_file_by_alias p cmd.alias)
  on_error (wrap "services.files.Service.DeleteFile: access denied")
      (lift (check_access info cmd.user.user_id cmd.user.roles))
  on_error (wrap "services.files.Service.DeleteFile: failed to begin tx") begin
  unless_success rolled_back (erase_file p cmd)

-- time.Until
abbrev pub until : ℕ → ℕ → ℤ
until now t = if leb now t then pos (t - now) else negsuc (now - t - 1)

abbrev pub file_info : ℕ → File → FileInfo
file_info now f = record {
  alias = f.alias;
  filename = f.name;
  filesize = f.size;
  downloads_left = f.downloads_left;
  expires_in = until now f.expires_at;
}

-- Service.GetFileByAlias; `now` is the clock when the result is put together.
pub get_file : Platform → ℕ → AliasCommand → Action FileInfo
get_file p now cmd = do
  info ←
      on_error
        (unless_not_found "services.file.Service.GetFileByAlias: failed to get file by alias")
        (get_file_by_alias p cmd.alias)
  on_error (wrap "services.file.Service.GetFileByAlias: access denied")
      (lift (check_access info cmd.user.user_id cmd.user.roles))
  pure (file_info now info)

-- Service.GetAllFiles
unfoldable pub get_all_files : ℕ → GetAllFiles → Action AllFiles
get_all_files now cmd = do
  page ←
      on_error (unless_ctx "services.files.Service.GetFilesByUserID: failed to get user files")
        (get_files_by_user_id cmd)
  pure (record { total = page.1; files = map (file_info now) page.0 })

-- Service.GetFilesStat
pub get_files_stat : Permissions → RequestingUserInfo → Action StatResult
get_files_stat cfg user = do
  stat ←
      on_error (unless_no_user "services.file.Service.GetFilesStat: failed to get file by alias")
        (get_files_stat_by_user_id user.user_id)
  let limits = get_user_limits cfg user.roles
  pure (record { stat = stat; max_size = limits.max_size; max_count = limits.max_uploaded_files })
