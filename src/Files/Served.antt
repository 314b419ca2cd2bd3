-- ===== src/Files/Served.antt =====
-- A row whose file is in storage can be downloaded.
use expire_share_api.Prelude.{
  ℕ, ◌<◌, ℤ, String, Option, none, some, List, [], ◌∷◌, true, false, ◌≡◌, refl, arith, ltb, is_zero,
  keep, length, eqb, lt→ltb,
}
use expire_share_api.Domain.{File}
use expire_share_api.World.{
  World, Env, Platform, Call, ok, Stored, select_file, select_downloads, delete_file,
}
use expire_share_api.World.Post.{Post-mono}
use expire_share_api.Storage.{entries, base}
use expire_share_api.Storage.Folders.{holds_file}
use expire_share_api.Repo.{find_row, is_live, same_alias, set_downloads}
use expire_share_api.Repo.Table.{row_at, IsValid}
use expire_share_api.Files.{download_file, check_password}
use expire_share_api.Files.Progress.{Returns, download_file-Returns}

module _ (p : Platform) where
  pub live_found :
      (a : String) (now : ℕ) (rows : List File) (f : File)
      → row_at p a rows ≡ some f
      → ltb now f.expires_at ≡ true
      → find_row (is_live p now a) rows ≡ some f
  live_found a now [] f h l = cc
  live_found a now (g ∷ gs) f h l = ground (arith, live_found a now gs f)

  live_counted :
      (a : String) (now : ℕ) (n : ℤ) (rows : List File) (f : File)
      → row_at p a rows ≡ some f
      → ltb now f.expires_at ≡ true
      → eqb (length (keep (is_live p now a) (set_downloads (same_alias p a) n rows))) 0 ≡ false
  live_counted a now n [] f h l = cc
  live_counted a now n (g ∷ gs) f h l = ground (arith, live_counted a now n gs f)

  positive_row :
      (a : String) (rows : List File) (f : File)
      → IsValid p rows
      → row_at p a rows ≡ some f
      → is_zero f.downloads_left ≡ false
  positive_row a [] f v h = cc
  positive_row a (g ∷ gs) f v h = ground (arith, positive_row a gs f v.2)

listed_file :
    (name : String) (o : Option (List Stored))
    → holds_file name o ≡ true
    → (e : Stored) × (more : List Stored) × (o ≡ some (e ∷ more))
listed_file name none h = cc
listed_file name (some []) h = cc
listed_file name (some (e ∷ more)) h = (e, more, refl)

-- Where no call fails: a download by the very alias of a row, before the row expires at each of the
-- statements, with a password that passes, returns a file of the alias's folder, where the table is
-- valid and the row's file is in storage.
pub backed-Returns :
    (p : Platform) (env : Env) (w : World) (f : File) (password : String)
    → ((c : Call) → env.fault c ≡ none)
    → IsValid p w.rows
    → row_at p f.alias w.rows ≡ some f
    → holds_file (base f.name) (entries f.alias w.folders) ≡ true
    → ((c : Call) → env.now c < f.expires_at)
    → check_password p f password ≡ ok tt
    → Returns
        (λ o _. (more : List Stored) × (entries f.alias w.folders ≡ some (o.entry ∷ more)))
        (download_file p (record { alias = f.alias; password = password }) env w)
backed-Returns p env w f password calm v here file live allowed =
    let (e, more, listing) = listed_file (base f.name) _ file in
    let living = λ (c : Call). lt→ltb (env.now c) f.expires_at (live c) in
    Post-mono _ (λ o _ h. (more, rw h listing)) (λ _ _ h. h)
      (download_file-Returns p (record { alias = f.alias; password = password }) env calm w f f e
        more (live_found p f.alias _ w.rows f here (living select_file)) allowed listing
        (live_found p f.alias _ w.rows f here (living select_downloads))
        (positive_row p f.alias w.rows f v here)
        (live_counted p f.alias _ _ w.rows f here (living delete_file)))
