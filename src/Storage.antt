-- ===== src/Storage.antt =====
-- internal/infrastructure/storage/local/files.go: a folder for each alias, with the uploaded file
-- in it. Folder names are compared byte for byte. `os.ReadDir` lists a folder by file name, so the
-- entries are kept in that order.

pub mod Folders
pub mod Effects
pub mod Calm
pub mod Frame
use Prim.Native.String
use Prim.Native.String.{compare}
use Prim.Native.Nat.{Ordering}
use expire_share_api.Prelude.{
  suc, ◌+◌, code, eqb, Bool, true, false, String, Option, none, some, List, [], ◌∷◌, ◌==◌,
  if◌then◌else◌, keep,
}
use expire_share_api.Domain.{Error, sentinel, file_not_found, wrap}
use expire_share_api.World.{
  Action, Done, Folder, Stored, World, Fault, not_exist, error_of, Result, ok, err, pure, raise,
  lift, on_error, gets, modify, call, unless_success, with_handle, make_folder, create_file,
  check_context, copy_file, sync_file, read_folder, open_file, entry_info, remove_folder, ◌>>=◌,
  ◌>>◌,
}

-- os.Create and the copy: a file of that name is replaced.
pub write_entry : Stored → List Stored → List Stored
write_entry e [] = e ∷ []
write_entry e (x ∷ xs) = elim (compare e.name x.name) [
  | Ordering.lt ↦ e ∷ x ∷ xs
  | Ordering.eq ↦ e ∷ xs
  | Ordering.gt ↦ x ∷ write_entry e xs
]

unfoldable pub entries : String → List Folder → Option (List Stored)
entries alias [] = none
entries alias (f ∷ fs) = if f.name == alias then some f.entries else entries alias fs

-- os.MkdirAll: a folder that is there is left alone.
pub add_folder : String → List Folder → List Folder
add_folder alias [] = record { name = alias; entries = [] } ∷ []
add_folder alias (f ∷ fs) = if f.name == alias then f ∷ fs else f ∷ add_folder alias fs

pub write_file : String → Stored → List Folder → List Folder
write_file alias e [] = []
write_file alias e (f ∷ fs) =
    if f.name == alias
    then record f { entries = write_entry e f.entries } ∷ fs
    else f ∷ write_file alias e fs

-- os.RemoveAll
pub remove_all : String → List Folder → List Folder
remove_all alias [] = []
remove_all alias (f ∷ fs) = if f.name == alias then remove_all alias fs else f ∷ remove_all alias fs

-- filepath.Base: the last element that is not empty, "." for no path and "/" for slashes alone.
-- `last` is the last such element that a slash has ended, `cur` what stands behind that slash.
base_from : String → String → String → String
base_from last cur String.[] = if cur == "" then (if last == "" then "/" else last) else cur
base_from last cur (String.◌∷◌ c s) =
    let ended = base_from (if cur == "" then last else cur) "" s in
    let longer = base_from last (String.◌++◌ cur (String.◌∷◌ c String.[])) s in
    if eqb (code c) b'/' then ended else longer

unfoldable pub base : String → String
unfolding base_from
base s = if s == "" then "." else base_from "" "" s

abbrev pub on_folders : (List Folder → List Folder) → World → World
on_folders f w = record w { folders = f w.folders }

-- An os.RemoveAll that breaks off: the folder is there still, with the files that it leaves.
pub remove_some : (Stored → Bool) → String → List Folder → List Folder
remove_some spares alias [] = []
remove_some spares alias (f ∷ fs) =
    if f.name == alias
    then record f { entries = keep spares f.entries } ∷ fs
    else f ∷ remove_some spares alias fs

-- `_ = os.RemoveAll(folderPath)`, after a copy that broke off.
drop_folder : String → Action Done
drop_folder alias env w = elim (env.fault (remove_folder alias)) [
  | none ↦ (ok tt, on_folders (remove_all alias) w)
  | some _ ↦ (ok tt, on_folders (remove_some (env.spares alias) alias) w)
]

-- io.Copy: the content is written; or a part of it, and then the folder is dropped and the error
-- returned.
copy_content : String → String → String → Action Done
copy_content alias name content env w = elim (env.fault copy_file) [
  | none ↦ (ok tt, on_folders (write_file alias (record { name = name; content = content })) w)
  | some f ↦
      (modify (on_folders (write_file alias (record { name = name; content = env.copied_part })))
          >> drop_folder alias
          >> raise (wrap "storage.local.FileStorage.Upload: upload file failed" (error_of f)))
        env w
]

-- The new file, once os.Create has opened it.
fill_file : String → String → String → Action Done
fill_file content alias filename = do
  modify (on_folders (write_file alias (record { name = base filename; content = "" })))
  call check_context
  copy_content alias (base filename) content
  call sync_file

-- FileStorage.Upload. The deferred Close gives the handle of the new file back on every path. (A
-- broken copy closes the file before that, too; the second Close then reports an error, which is
-- logged.)
pub upload : String → String → String → Action Done
upload content alias filename = do
  on_error (wrap "storage.local.FileStorage.Upload: create file folder failed") (call make_folder)
  modify (on_folders (add_folder alias))
  on_error (wrap "storage.local.FileStorage.Upload: create file failed") (call create_file)
  with_handle (fill_file content alias filename)

-- results.DownloadFile: an open handle, and what is known of the file.
pub record Opened : Type 0 where
  pub entry : Stored

-- `if os.IsNotExist(err) { return ErrFileNotFound }; return fmt.Errorf(...)`
missing_or : String → Fault → Error
missing_or text not_exist = sentinel file_not_found
missing_or text f = wrap text (error_of f)

-- os.ReadDir
read_dir : String → Action (List Stored)
unfolding missing_or
read_dir alias env w = elim (env.fault read_folder) [
  | none ↦ elim (entries alias w.folders) [
    | none ↦ (err (sentinel file_not_found), w)
    | some es ↦ (ok es, w)
  ]
  | some f ↦ (err (missing_or "storage.local.FileStorage.Download: read dir failed" f), w)
]

abbrev first_entry : List Stored → Result Stored
first_entry [] = err (sentinel file_not_found)
first_entry (e ∷ es) = ok e

-- os.Open and `result[0].Info()`. The handle that the first gives stays open if the second fails.
open_entry : Stored → Action Opened
open_entry entry = do
  on_error (wrap "storage.local.FileStorage.Download: open file failed") (call open_file)
  modify (λ w. record w { open_files = w.open_files + 1 })
  on_error (wrap "storage.local.FileStorage.Download: get file info failed") (call entry_info)
  pure (record { entry = entry })

-- FileStorage.Download
pub download : String → Action Opened
download alias = do es ← read_dir alias; entry ← lift (first_entry es); open_entry entry

-- FileStorage.Delete
pub delete : String → Action Done
unfolding missing_or
delete alias env w = elim (env.fault (remove_folder alias)) [
  | none ↦ (ok tt, on_folders (remove_all alias) w)
  | some f ↦ (
    err (missing_or "storage.local.FileStorage.Delete: delete dir failed" f),
    on_folders (remove_some (env.spares alias) alias) w,
  )
]
