-- ===== src/World.antt =====
-- What one request or one round of the worker works on: the database, the disk, and what each
-- call out of the process meets. An operation is an action: it returns a value or an error, and
-- the state in both cases.
pub mod Post
use expire_share_api.Prelude.{ℕ, suc, ◌+◌, ◌-◌, Bool, true, false, String, Option, none, some, List}
use expire_share_api.Domain.{File, Error, canceled, deadline_exceeded, sentinel, opaque}

-- The calls out of the process. A request makes each of them once at most.
pub data Call : Type 0 where
  begin_tx commit rollback : Call
  insert_file insert_id select_file count_files page_files scan_page select_stat : Call
  select_downloads update_downloads delete_file rows_affected : Call
  select_expired scan_expired prepare_delete : Call
  delete_alias : String → Call
  make_folder create_file check_context copy_file sync_file : Call
  read_folder open_file entry_info : Call
  remove_folder : String → Call
  hash_password read_clock : Call

-- How a call fails: the request's context ends it, the file system reports that a file is not
-- there (`os.IsNotExist`), or it breaks with another error of the library.
pub data Fault : Type 0 where
  cancel expire not_exist : Fault
  broken : String → Fault

abbrev pub error_of : Fault → Error
error_of cancel = sentinel canceled
error_of expire = sentinel deadline_exceeded
error_of not_exist = opaque "no such file or directory"
error_of (broken s) = opaque s

-- A file of the storage folder: its name and what it holds.
pub record Stored : Type 0 where
  pub name : String
  pub content : String

-- `commit_applied` says whether a commit that reports an error took effect all the same (its
-- reply was lost). `now` is the clock at each call. `salt` is the random part of a new hash.
-- `spares` are the files of a folder that an os.RemoveAll leaves which breaks off, `copied_part` is
-- what an io.Copy has written which breaks off.
pub record Env : Type 0 where
  pub fault : Call → Option Fault
  pub now : Call → ℕ
  pub commit_applied : Bool
  pub salt : String
  pub spares : String → Stored → Bool
  pub copied_part : String

-- What the libraries decide: `weight` is the collation's weight string of an alias (MySQL
-- compares two texts by it), `timestamp` what a TIMESTAMP column keeps of a time, and the two
-- functions of bcrypt.
pub record Platform : Type 0 where
  pub weight : String → String
  pub timestamp : ℕ → ℕ
  pub bcrypt_generate : String → String → String
  pub bcrypt_matches : String → String → Bool

pub record Folder : Type 0 where
  pub name : String
  pub entries : List Stored

-- `rows` is the committed table, `tx` the table as the open transaction sees it.
pub record World : Type 0 where
  pub rows : List File
  pub tx : Option (List File)
  pub folders : List Folder
  pub open_files : ℕ

pub data Result {ℓ} (A : Type ℓ) : Type ℓ where
  ok : A → Result A
  err : Error → Result A

abbrev pub Action : Type 0 → Type 0
Action A = Env → World → Result A × World

abbrev pub Done : Type 0
Done = Unit {0}

module _ {A : Type 0} where
  unfoldable pub pure : A → Action A
  pure a env w = (ok a, w)

  unfoldable pub raise : Error → Action A
  raise e env w = (err e, w)

  unfoldable pub lift : Result A → Action A
  lift r env w = (r, w)

  unfoldable pub gets : (World → A) → Action A
  gets f env w = (ok (f w), w)

  -- `if err != nil { return f(err) }`
  unfoldable pub on_error : (Error → Error) → Action A → Action A
  on_error f m env w =
      let (r, w') = m env w in elim r [ ok a ↦ (ok a, w') | err e ↦ (err (f e), w') ]

  -- A deferred cleanup that runs unless the body succeeds; its own errors are only logged.
  unfoldable pub unless_success : (World → World) → Action A → Action A
  unless_success undo m env w =
      let (r, w') = m env w in elim r [ ok a ↦ (ok a, w') | err e ↦ (err e, undo w') ]

abbrev pub opened_file : World → World
opened_file w = record w { open_files = w.open_files + 1 }

-- Close of a file handle. It frees the handle also where it reports an error.
abbrev pub close_file : World → World
close_file w = record w { open_files = w.open_files - 1 }

-- A handle that is open from here to the end, where a deferred Close gives it back.
unfoldable pub with_handle : {A : Type 0} → Action A → Action A
with_handle m env w = let (r, w') = m env (opened_file w) in (r, close_file w')

unfoldable pub modify : (World → World) → Action Done
modify f env w = (ok tt, f w)

-- A call out of the process.
unfoldable pub call : Call → Action Done
call c env w = elim (env.fault c) [ none ↦ (ok tt, w) | some f ↦ (err (error_of f), w) ]

unfoldable pub clock : Call → Action ℕ
clock c env w = (ok (env.now c), w)

infixl 5 ◌>>=◌ ◌>>◌
-- Opening `>>=` opens the ways to build an action, too.
unfoldable pub ◌>>=◌ : {A B : Type 0} → Action A → (A → Action B) → Action B
unfolding pure raise lift gets on_error unless_success with_handle modify call clock
◌>>=◌ m f env w = let (r, w') = m env w in elim r [ ok a ↦ f a env w' | err e ↦ (err e, w') ]

abbrev pub ◌>>◌ : {B : Type 0} → Action Done → Action B → Action B
m >> k = m >>= λ _. k

-- tx.Rollback() ends the transaction also where it reports an error.
abbrev pub rolled_back : World → World
rolled_back w = record w { tx = none }
