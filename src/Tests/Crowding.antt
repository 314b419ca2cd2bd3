-- ===== src/Tests/Crowding.antt =====
-- The theorems on uploads that overlap, applied to two uploads of a user who may have one file more.
use expire_share_api.Prelude.{
  ℕ, zero, suc, String, ltb_ℤ, false, ◌<◌, ◌+◌, ◌≡◌, ◌==◌, refl, true, none, List, [], ◌∷◌, pos,
  arith,
}
use expire_share_api.Domain.{AddFile, Permissions, UserRole}
use expire_share_api.Repo.Table.{row_at}
use expire_share_api.Repo.Transactions.{stat_of}
use expire_share_api.World.{ok}
use expire_share_api.Files.{check_upload_quote, has_role}
use expire_share_api.Files.Crowd.{Shared, Reaches, fresh, checks, stored}
use expire_share_api.Files.Crowd.Race.{Ready, quota_overrun}
use expire_share_api.Tests.{platform, world, limits}

abbrev one_more : Permissions
one_more = record limits { max_uploaded_files = 3 }

abbrev small : String → AddFile
small alias = record {
  filename = "note.txt";
  filesize = 5;
  alias = alias;
  max_downloads = pos 1;
  password_hash = "";
  ttl = pos 300;
  user_id = pos 7;
}

abbrev adds : ℕ → AddFile
adds zero = small "first0"
adds (suc i) = small "second"

abbrev roles : ℕ → List UserRole
roles i = "user" ∷ []

owned : (i : ℕ) → (adds i).user_id ≡ pos 7
owned zero = refl
owned (suc i) = refl

within :
    (i : ℕ)
    → check_upload_quote one_more (stat_of (pos 7) world.rows) (adds i).filesize (roles i) ≡ ok tt
unfolding check_upload_quote has_role
within zero = refl
within (suc i) = refl

new : (i : ℕ) → row_at platform (adds i).alias world.rows ≡ none
new zero = refl
new (suc i) = refl

apart : (i j : ℕ) → i < j → j < 2 → ((adds i).alias == (adds j).alias) ≡ false
apart zero zero h k = ground arith
apart zero (suc j) h k = refl
apart (suc i) zero h k = ground arith
apart (suc i) (suc j) h k = ground arith

ready : Ready platform one_more adds roles world.rows (pos 7) 2
ready = record { owner = owned; within = within; new = new; apart = apart }

one_download : (i : ℕ) → ltb_ℤ (pos 0) (adds i).max_downloads ≡ true
one_download zero = refl
one_download (suc i) = refl

quota_overrun_example :
    (t : Shared) × Reaches platform one_more adds roles
      (fresh platform one_more adds roles world.rows)
      t
    × ((i : ℕ) → i < 2 → t.phase i ≡ stored)
    × ((stat_of (pos 7) t.rows).count ≡ (stat_of (pos 7) world.rows).count + 2)
quota_overrun_example = quota_overrun platform one_more adds roles world.rows (pos 7) 2 ready 100

abbrev asked : Shared
asked = checks platform one_more adds roles 0 (fresh platform one_more adds roles world.rows)
