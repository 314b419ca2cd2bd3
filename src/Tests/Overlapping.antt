-- ===== src/Tests/Overlapping.antt =====
-- The theorems on downloads that overlap, applied to two downloads of one file.
use expire_share_api.Prelude.{start, step, ◌≡◌, ◌≤◌, ◌<◌, ℕ, refl, some, List, [], ◌∷◌, pos, arith}
use expire_share_api.Domain.{File}
use expire_share_api.World.{World}
use expire_share_api.Storage.{Opened}
use expire_share_api.Repo.Table.{row_at, IsValid}
use expire_share_api.Files.{count_download}
use expire_share_api.Files.Spending.{downloads_of}
use expire_share_api.Files.Overlap.{
  Shared, Reaches, read, end, reads, ends, fresh, served, end_download, after_read,
}
use expire_share_api.Files.Overlap.Bounds.{overlapping-bounded}
use expire_share_api.Files.Overlap.Lost.{updates_lost}
use expire_share_api.Files.Overlap.Last.{last_download-once}
use expire_share_api.Files.Overlap.Alone.{Answers, alone, count_download-alone}
use expire_share_api.Tests.{platform, calm, world, report, fetch}

abbrev last_one : List File
last_one = record report { downloads_left = pos 1 } ∷ []

abbrev both_read : Shared
both_read =
    reads platform "Ab3dEf" 1 100 (reads platform "Ab3dEf" 0 100 (fresh platform "Ab3dEf" last_one))

abbrev one_served : Shared
one_served = ends platform "Ab3dEf" 0 100 (pos 1) both_read

race : Reaches platform "Ab3dEf" (fresh platform "Ab3dEf" last_one) one_served
unfolding after_read
race =
    step (step (step start (read 0 100 refl)) (read 1 100 (ground arith)))
      (end 0 100 (pos 1) (ground arith))

overlapping-bounded_example :
    IsValid platform one_served.rows
    × (downloads_of (row_at platform "Ab3dEf" one_served.rows)
        ≤ downloads_of (row_at platform "Ab3dEf" last_one))
overlapping-bounded_example =
    overlapping-bounded platform "Ab3dEf" last_one one_served (ground arith) race

first_is_served : one_served.phase 0 ≡ served
unfolding end_download
first_is_served = ground arith

abbrev first : ℕ
first = 0

last_download-once_example : first ≡ first
last_download-once_example =
    last_download-once platform "Ab3dEf" last_one one_served first first (ground arith)
      (ground arith) race first_is_served first_is_served

updates_lost_example :
    (t : Shared) × Reaches platform "Ab3dEf" (fresh platform "Ab3dEf" world.rows) t
    × ((i : ℕ) → i < 2 → t.phase i ≡ served)
    × (row_at platform "Ab3dEf" t.rows ≡ some (record report { downloads_left = pos 1 }))
updates_lost_example =
    updates_lost platform "Ab3dEf" world.rows 100 report 0 (ground arith) (ground arith) refl 1

abbrev in_transaction : World
in_transaction = record world { tx = some world.rows }

abbrev handle : Opened
handle = record { entry = record { name = "report.txt"; content = "text" } }

count_download-alone_example :
    Answers handle
      (alone platform "Ab3dEf" calm world.rows).0
      (count_download platform fetch handle calm in_transaction).0
    × ((count_download platform fetch handle calm in_transaction).1.rows
        ≡ (alone platform "Ab3dEf" calm world.rows).1)
count_download-alone_example =
    count_download-alone platform fetch handle calm (λ c. refl) in_transaction refl
