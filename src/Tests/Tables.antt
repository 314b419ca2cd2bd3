-- ===== src/Tests/Tables.antt =====
-- The theorems on the rights of callers and on the order of rows, applied at concrete tables.
use mathlib.Core.List.{Memᴰ, Permᴰ}
use expire_share_api.Prelude.{◌≡◌, ◌⊎◌, ◌↔◌, refl, inr, eq_iff, [], ◌∷◌, pos, arith}
use expire_share_api.Domain.{
  DownloadFile, AliasCommand, RequestingUserInfo, role_admin, sentinel, wrap, forbidden,
  file_password_invalid,
}
use expire_share_api.World.{World, ok, err}
use expire_share_api.Files.{
  download_file, delete_file, get_file, upload_file, get_files_stat, has_role, check_access,
}
use expire_share_api.Files.Refusals.{
  outsider-forbidden, wrong_password-refused, check_access_iff, password_refusal,
}
use expire_share_api.Files.AnyOrder.{answers_in_any_order}
use expire_share_api.Repo.Uniform.{Same, Agree}
use expire_share_api.Tests.{
  platform, calm, world, report, old_file, limits, note, fetch, drop, alice,
}

abbrev mallory : RequestingUserInfo
mallory = record { user_id = pos 8; roles = "user" ∷ [] }

abbrev theft : AliasCommand
theft = record { alias = "Ab3dEf"; user = mallory }

outsider-forbidden_example :
    (delete_file platform theft calm world
      ≡ (err (wrap "services.files.Service.DeleteFile: access denied" (sentinel forbidden)), world))
    × (get_file platform 100 theft calm world ≡ (
      err (wrap "services.file.Service.GetFileByAlias: access denied" (sentinel forbidden)),
      world,
    ))
unfolding has_role
outsider-forbidden_example =
    outsider-forbidden platform calm world report theft 100 refl (ground arith) (λ e. ground arith)
      refl

abbrev guess : DownloadFile
guess = record fetch { password = "guess" }

wrong_password-refused_example :
    download_file platform guess calm world
    ≡ password_refusal platform calm world report file_password_invalid
wrong_password-refused_example =
    wrong_password-refused platform calm world report guess refl (ground arith)
      (λ e. ground (arith, eq_iff "$pw" "")) (inr refl)

check_access_iff_example :
    (check_access report (pos 7) alice.roles ≡ ok tt)
    ↔ (Memᴰ role_admin alice.roles ⊎ (pos 7 ≡ pos 7))
check_access_iff_example = check_access_iff report (pos 7) alice.roles

abbrev shuffled : World
shuffled = record world { rows = old_file ∷ report ∷ [] }

one_table : Same platform world shuffled
one_table = record {
  rows = record { perm = Permᴰ.swap refl refl; distinct = ground arith };
  tx = tt;
  folders = refl;
  open_files = refl;
}

answers_in_any_order_example :
    Agree platform
      (upload_file platform limits note "Qq1Ww2" calm world)
      (upload_file platform limits note "Qq1Ww2" calm shuffled)
    × Agree platform
        (download_file platform fetch calm world)
        (download_file platform fetch calm shuffled)
    × Agree platform
        (delete_file platform drop calm world)
        (delete_file platform drop calm shuffled)
    × Agree platform
        (get_file platform 100 drop calm world)
        (get_file platform 100 drop calm shuffled)
    × Agree platform
        (get_files_stat limits alice calm world)
        (get_files_stat limits alice calm shuffled)
answers_in_any_order_example =
    answers_in_any_order platform limits note "Qq1Ww2" fetch drop 100 calm world shuffled one_table
