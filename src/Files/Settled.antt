-- ===== src/Files/Settled.antt =====
-- What a download makes of the table: the counter of its row goes down, and the row goes with the
-- last download.
use expire_share_api.Prelude.{
  ◌<◌, length, Option, none, some, List, Bool, true, false, not, ltb_ℤ, ℤ, pos, pred_int16, keep,
}
use expire_share_api.Domain.{File, DownloadFile}
use expire_share_api.World.{World, Env, Platform, select_downloads, delete_file, Folder}
use expire_share_api.Storage.{remove_all}
use expire_share_api.Repo.{find_row, same_alias, is_live, set_downloads}

abbrev pub has_more : ℤ → Bool
has_more left = ltb_ℤ (pos 0) left

module _ (p : Platform) (cmd : DownloadFile) (env : Env) where
  -- The table when `left` downloads are left: the counter is written, and the row goes when none is.
  abbrev pub settled : Bool → ℤ → List File → List File
  settled true left rows = set_downloads (same_alias p cmd.alias) left rows
  settled false left rows =
      keep (λ f. not (is_live p (env.now delete_file) cmd.alias f))
        (set_downloads (same_alias p cmd.alias) left rows)

  abbrev pub settled_folders : Bool → List Folder → List Folder
  settled_folders true folders = folders
  settled_folders false folders = remove_all cmd.alias folders

  -- The row that the counter is read from.
  abbrev pub counted : List File → Option File
  counted rows = find_row (is_live p (env.now select_downloads) cmd.alias) rows

  abbrev pub lowered_by : Option File → List File → List File
  lowered_by none rows = rows
  lowered_by (some f) rows =
      settled (has_more (pred_int16 f.downloads_left)) (pred_int16 f.downloads_left) rows

  -- The table after the download.
  abbrev pub lowered : List File → List File
  lowered rows = lowered_by (counted rows) rows

  -- The state when the transaction is committed.
  abbrev pub after : Bool → ℤ → List File → World → World
  after more left rows w = record w {
    rows = settled more left rows;
    tx = none;
    folders = settled_folders more w.folders;
  }

  abbrev pub counting : ℤ → List File → World → World
  counting left rows w = record w { tx = some (set_downloads (same_alias p cmd.alias) left rows) }

  -- The delete has found a row, where there is one.
  abbrev pub Gone : Bool → ℤ → List File → Type 0
  Gone true left rows = Unit
  Gone false left rows =
      0
      < length (
          keep (is_live p (env.now delete_file) cmd.alias)
            (set_downloads (same_alias p cmd.alias) left rows))

  abbrev pub SettlesBy : Option File → List File → Type 0
  SettlesBy none rows = Unit
  SettlesBy (some f) rows =
      Gone (has_more (pred_int16 f.downloads_left)) (pred_int16 f.downloads_left) rows

  -- The counter was read, and the delete, if there was one, has found its row.
  abbrev pub Settles : List File → Type 0
  Settles rows = SettlesBy (counted rows) rows
