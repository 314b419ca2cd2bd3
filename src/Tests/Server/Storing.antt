-- ===== src/Tests/Server/Storing.antt =====
-- The theorems on rows and their files, applied at a concrete server.
use expire_share_api.Prelude.{
  start, step, refl, inl, eq_iff, none, some, List, [], ◌∷◌, ◌≡◌, true, arith, ◌==◌, if◌then◌else◌,
}
use expire_share_api.World.{World, Platform, Stored}
use expire_share_api.Storage.{entries, base}
use expire_share_api.Storage.Folders.{holds_file}
use expire_share_api.Repo.Table.{row_at}
use expire_share_api.Files.{
  download_file, upload_file, delete_file as erase, check_password, check_access,
  check_upload_quote, has_role,
}
use expire_share_api.Files.Progress.{Returns}
use expire_share_api.Files.Backed.{Backed}
use expire_share_api.Files.Spelling.{delete-orphans}
use expire_share_api.Files.Uploading.{Stores, upload_file-Returns}
use expire_share_api.Files.Tidy.{Tidy, AsWritten}
use expire_share_api.Http.Routes.{App, serve, get_download, post_upload}
use expire_share_api.Http.Backed
use expire_share_api.Http.Backed.{Sound, Reaches-Backed, reached-Returns}
use expire_share_api.Http.Tidy
use expire_share_api.Http.Tidy.{Mirrored, Reaches-Mirrored}
use expire_share_api.Http.Middlewares.{Server}
use expire_share_api.Repo.Table.{IsValid}
use expire_share_api.Tests.{
  old_file, platform, calm, report, world, world-IsValid, limits, note, drop,
}
use expire_share_api.Tests.Server.{app, arrival, server, form, downloaded, uploaded}

report_file : holds_file (base report.name) (entries report.alias world.folders) ≡ true
unfolding base entries
report_file = refl

world-Backed : Backed platform 200 world
world-Backed a f h later = ground (arith, report_file)

Reaches-Backed_example : Sound 200 platform uploaded.world
Reaches-Backed_example =
    Reaches-Backed 200 app server uploaded refl ((refl, world-IsValid), world-Backed)
      (step
        (step start
          (Backed.request arrival (get_download "Ab3dEf" "pw") server (inl refl) (λ _. refl)))
        (Backed.request arrival (post_upload (some form)) downloaded (inl refl) (λ _. refl)))

reached-Returns_example :
    Returns
      (λ o _. (more : List Stored) × (entries "Ab3dEf" world.folders ≡ some (o.entry ∷ more)))
      (download_file platform (record { alias = "Ab3dEf"; password = "pw" }) calm world)
unfolding check_password
reached-Returns_example =
    reached-Returns 200 app server server report calm "pw" refl
      ((refl, world-IsValid), world-Backed) start refl (omega arith) (λ c. refl) (λ c. omega arith)
      refl

upload_file-Returns_example :
    Returns
      (λ a x. Stores platform note "Qq1Ww2" calm (λ c. refl) world a x)
      (upload_file platform limits note "Qq1Ww2" calm world)
unfolding check_upload_quote has_role
upload_file-Returns_example =
    upload_file-Returns platform note "Qq1Ww2" calm (λ c. refl) world limits refl refl

-- A collation that does not tell the case of this alias.
abbrev folding : Platform
folding = record platform { weight = λ s. if s == "ab3def" then "Ab3dEf" else s }

abbrev lone : World
lone = record world { rows = report ∷ [] }

delete-orphans_example :
    Returns
      (λ _ x.
        (row_at folding "Ab3dEf" x.rows ≡ none)
        × (entries "Ab3dEf" x.folders ≡ entries "Ab3dEf" lone.folders))
      (erase folding (record drop { alias = "ab3def" }) calm lone)
unfolding check_access has_role
delete-orphans_example =
    delete-orphans folding (record drop { alias = "ab3def" }) calm lone report (λ c. refl)
      (ground arith) refl (λ e. cc) (λ c. omega arith) refl

abbrev folding_app : App
folding_app = record app { platform = folding }

abbrev asked : Server
asked = (serve folding_app arrival (get_download "Ab3dEf" "pw") server).1

folding-IsValid : IsValid folding world.rows
folding-IsValid = (refl, refl, (refl, refl, tt))

world-Tidy : Tidy folding world
unfolding entries
world-Tidy a h = ground (arith, eq_iff report.alias a, eq_iff old_file.alias a)

report-AsWritten : AsWritten folding world.rows "Ab3dEf"
report-AsWritten f h = ground arith

Reaches-Mirrored_example :
    Mirrored folding (serve folding_app arrival (post_upload (some form)) asked).1.world
Reaches-Mirrored_example =
    Reaches-Mirrored folding_app server _ refl ((refl, folding-IsValid), world-Tidy)
      (step
        (step start
          (Tidy.request arrival (get_download "Ab3dEf" "pw") server (λ c. refl) report-AsWritten))
        (Tidy.request arrival (post_upload (some form)) asked (λ c. refl) tt))
