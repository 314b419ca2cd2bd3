-- ===== src/Tests.antt =====
-- The theorems applied at concrete inputs, and runs of the model that can be followed in the source.
mod Server
mod Runs
mod Tables
mod Overlapping
mod Crowding
mod Lifetime
use Prim.Native.String
use expire_share_api.Prelude.{
  ◌+◌, ◌≤◌, ◌≡◌, ◌⊎◌, refl, false, String, Option, none, some, List, [], ◌∷◌, ◌==◌, arith, pos,
}
use expire_share_api.Domain.{
  File, UploadFile, DownloadFile, AliasCommand, Permissions, RequestingUserInfo,
}
use expire_share_api.World.{World, Env, Platform, ok, Fault, Call, commit, broken}
use expire_share_api.World.Post.{Post}
use expire_share_api.Repo.Transactions.{stat_of}
use expire_share_api.Repo.Table.{row_at, IsValid}
use expire_share_api.Storage.{entries}
use expire_share_api.Files.{upload_file, download_file, delete_file, check_upload_quote}
use expire_share_api.Files.Outcome.{Failed}
use expire_share_api.Files.Upload.{Uploads, hash_of, new_rows, upload_file-Post}
use expire_share_api.Files.Download.{Downloads, DownloadFailed, download_file-Post}
use expire_share_api.Files.Delete.{Deletes, remaining, delete_file-Post}
use expire_share_api.Files.Counting.{Spends, serve, left_in, download-refines, serve-le}
use expire_share_api.Worker.{round, start}
use expire_share_api.Worker.Expiry.{Aged, Keeps, round-Aged, round-keeps_live, start-Keeps_live}
use expire_share_api.RateLimiter.{
  Params, Store, answers, allow_script, lookup, insert, expire, open_window,
}
use expire_share_api.RateLimiter.Window.{answers-limit, refused_until}
use expire_share_api.RateLimiter.Keys.{admitted}

-- A collation that tells all texts apart, and a hash that can be read off.
abbrev platform : Platform
platform = record {
  weight = λ s. s;
  timestamp = λ t. t;
  bcrypt_generate = λ salt s. String.◌++◌ "$" s;
  bcrypt_matches = λ h s. h == String.◌++◌ "$" s;
}

-- Every call goes through at time 100.
abbrev calm : Env
calm = record {
  fault = λ _. none;
  now = λ _. 100;
  commit_applied = false;
  salt = "";
  spares = λ _ _. false;
  copied_part = "";
}

-- The commit fails.
abbrev no_commit : Call → Option Fault
no_commit commit = some (broken "bad connection")
no_commit _ = none

abbrev stormy : Env
stormy = record calm { fault = no_commit }

abbrev report : File
report = record {
  name = "report.txt";
  size = 4;
  alias = "Ab3dEf";
  downloads_left = pos 2;
  password_hash = "$pw";
  loaded_at = 50;
  expires_at = 500;
  user_id = pos 7;
}

abbrev old_file : File
old_file = record report { alias = "zzzzzz"; expires_at = 90 }

abbrev world : World
world = record {
  rows = report ∷ old_file ∷ [];
  tx = none;
  folders =
      record { name = "Ab3dEf"; entries = record { name = "report.txt"; content = "text" } ∷ [] }
      ∷ record { name = "zzzzzz"; entries = record { name = "report.txt"; content = "text" } ∷ [] }
      ∷ [];
  open_files = 0;
}

abbrev limits : Permissions
limits = record {
  max_uploaded_files = 50;
  max_files_size_for_user_in_bytes = 1000;
  max_files_size_for_vip_in_bytes = 4000;
}

abbrev alice : RequestingUserInfo
alice = record { user_id = pos 7; roles = "user" ∷ [] }

abbrev note : UploadFile
note = record {
  file = "hello";
  filesize = 5;
  filename = "dir/note.txt";
  max_downloads = pos 1;
  password = "";
  ttl = pos 300;
  user = alice;
}

abbrev fetch : DownloadFile
fetch = record { alias = "Ab3dEf"; password = "pw" }

abbrev drop : AliasCommand
drop = record { alias = "Ab3dEf"; user = alice }

world-IsValid : IsValid platform world.rows
world-IsValid = ground arith

upload_file-Post_example :
    Post
      (λ a w'.
        (check_upload_quote limits (stat_of (pos 7) world.rows) 5 alice.roles ≡ ok tt)
        × Uploads platform note "Qq1Ww2" calm (hash_of platform calm "") world a w')
      (λ _ w'.
        Failed
          (new_rows platform limits note "Qq1Ww2" calm world)
          (row_at platform "Qq1Ww2" world.rows ≡ none)
          "Qq1Ww2"
          calm
          world
          w'
        × (w'.tx ≡ none))
      (upload_file platform limits note "Qq1Ww2" calm world)
upload_file-Post_example = upload_file-Post platform limits note "Qq1Ww2" calm world refl

download_file-Post_example :
    Post
      (Downloads platform fetch calm world)
      (λ _ w'. DownloadFailed platform fetch calm world w')
      (download_file platform fetch calm world)
download_file-Post_example = download_file-Post platform fetch calm world refl

delete_file-Post_example :
    Post
      (λ _ w'. Deletes platform drop stormy world w')
      (λ _ w'.
        Failed (remaining platform drop stormy world) Unit "Ab3dEf" stormy world w'
        × (w'.tx ≡ none))
      (delete_file platform drop stormy world)
delete_file-Post_example = delete_file-Post platform drop stormy world refl

download-refines_example :
    Post
      (λ _ w'. Spends platform fetch calm world world-IsValid w'.rows)
      (λ _ w'. (w'.rows ≡ world.rows) ⊎ Spends platform fetch calm world world-IsValid w'.rows)
      (download_file platform fetch calm world)
download-refines_example = download-refines platform fetch calm world world-IsValid refl

abbrev requests : List (String × Env)
requests = ("pw", calm) ∷ ("wrong", calm) ∷ ("pw", stormy) ∷ ("pw", calm) ∷ ("pw", calm) ∷ []

serve-le_example :
    (serve platform "Ab3dEf" requests world).0
      + left_in platform "Ab3dEf" (serve platform "Ab3dEf" requests world).1
    ≤ 2
serve-le_example = serve-le platform "Ab3dEf" requests world refl world-IsValid

start-Keeps_live_example :
    Keeps platform "Ab3dEf" report world (start platform (calm ∷ stormy ∷ []) world)
start-Keeps_live_example =
    start-Keeps_live platform (calm ∷ stormy ∷ []) world "Ab3dEf" report refl world-IsValid refl
      (refl, (refl, tt))

abbrev files_limit : Params
files_limit = record { field = "files"; max_attempts = 2; window = 1200; block_duration = 600 }

abbrev full_store : Store
full_store = ("rate:files:ip", record { count = 2; expires = some 900 }) ∷ []

refused_until_example :
    (allow_script files_limit "rate:files:ip" 650
      (allow_script files_limit "rate:files:ip" 100 full_store).1).0
    ≡ false
unfolding allow_script lookup insert expire open_window
refused_until_example =
    refused_until files_limit "rate:files:ip" 100 650 full_store refl (omega arith) (omega arith)
      (omega arith)
