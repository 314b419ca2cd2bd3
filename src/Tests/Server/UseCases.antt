-- ===== src/Tests/Server/UseCases.antt =====
-- The theorems on what the use cases and the worker bring about, applied to one file.
use Prim.Native.String
use expire_share_api.Prelude.{
  eq_iff, Bool-cases, inl, inr, ◌≡◌, refl, none, ◌==◌, arith, pos, ℕ, ◌≤◌, ◌<◌, ◌⊎◌, String, some,
  length, take,
}
use expire_share_api.World.{Stored}
use expire_share_api.World.Post.{Post}
use expire_share_api.Repo.Transactions.{stat_of}
use expire_share_api.Storage.{entries}
use expire_share_api.Files.{upload_file, download_file, has_role}
use expire_share_api.Files.Quota.{WithinQuota, upload_file-WithinQuota}
use expire_share_api.Files.Progress.{Returns}
use expire_share_api.Storage.Effects.{stored_file}
use expire_share_api.Files.RoundTrip.{Hashes, download_file-upload_file}
use text.Mathlib.TextLemmas.{cons-ne-nil, append-eq-nil_iff}
use expire_share_api.Worker.{round}
use expire_share_api.Worker.Progress.{round-clears}
use expire_share_api.Repo.Table.{row_at}
use expire_share_api.Alias.{gen}
use expire_share_api.Alias.Total.{Letters, hits, spelled, gen-hits}
use expire_share_api.Tests.{old_file, platform, calm, world, limits, alice, note}

upload_file-WithinQuota_example :
    Post
      (λ _ w'. WithinQuota limits alice.roles (stat_of (pos 7) w'.rows))
      (λ _ _. Unit)
      (upload_file platform limits note "Qq1Ww2" calm world)
unfolding has_role
upload_file-WithinQuota_example =
    upload_file-WithinQuota platform limits note "Qq1Ww2" calm world refl (omega arith)
      (omega arith) (omega arith) refl

abbrev stored : Stored
stored = record { name = "report.txt"; content = "text" }

-- A word whose first index is 63, its second 1 and its third 2.
abbrev draws : ℕ → ℕ
draws k = 8319

gen-hits_example :
    ((2 ≤ length (hits draws 0 3))
      × (s : String) × (gen draws 4 2 ≡ some s)
      × (s ≡ spelled (take 2 (hits draws 0 3)) "")
      × (String.count s ≡ 2)
      × Letters s)
    ⊎ ((length (hits draws 0 3) < 2) × (gen draws 4 2 ≡ none))
gen-hits_example = gen-hits draws 3 2

platform-Hashes : Hashes platform
platform-Hashes salt password = (
  (eq_iff (String.◌++◌ "$" password) (String.◌++◌ "$" password)).1 refl,
  elim (Bool-cases (String.◌++◌ "$" password == "")) [
    | inl e ↦ absurd (cons-ne-nil _ _ (append-eq-nil_iff.0 ((eq_iff _ _).0 e)).0)
    | inr e ↦ e
  ],
)

-- The upload of `note` at time 100, for 300 units, and its download at the same time.
download_file-upload_file_example :
    Post
      (λ a w'.
        Returns
          (λ o _. o.entry ≡ stored_file "hello" "dir/note.txt")
          (download_file platform (record { alias = "Qq1Ww2"; password = "" }) calm w'))
      (λ _ _. Unit)
      (upload_file platform limits note "Qq1Ww2" calm world)
unfolding entries
download_file-upload_file_example =
    download_file-upload_file platform limits note "Qq1Ww2" calm calm world refl platform-Hashes
      (λ _. refl) refl refl (omega arith) (omega arith) (omega arith)

round-clears_example :
    let w' = (round platform calm world).1 in
    (row_at platform "zzzzzz" w'.rows ≡ none) × (entries "zzzzzz" w'.folders ≡ none)
round-clears_example =
    round-clears platform calm (λ _. refl) world "zzzzzz" old_file refl refl (omega arith)
