-- ===== src/Storage/Calm.antt =====
-- What the storage returns when no system call fails.
use expire_share_api.Prelude.{String, none, some, List, ◌∷◌, ◌+◌, ◌≡◌, arith}
use expire_share_api.World.{
  World, Env, Call, ok, Stored, read_folder, open_file, entry_info, remove_folder, ◌>>=◌,
  make_folder, create_file, check_context, copy_file, sync_file,
}
use expire_share_api.Storage.{
  download, delete, read_dir, open_entry, entries, on_folders, remove_all, upload, copy_content,
  fill_file,
}
use expire_share_api.Storage.Effects.{full}

module _ (env : Env) (calm : (c : Call) → env.fault c ≡ none) (w : World) where
  pub download-calm :
      (alias : String) (e : Stored) (es : List Stored)
      → entries alias w.folders ≡ some (e ∷ es)
      → download alias env w
        ≡ (ok (record { entry = e }), record w { open_files = w.open_files + 1 })
  unfolding download read_dir open_entry ◌>>=◌
  download-calm alias e es h = ground (arith, calm read_folder, calm open_file, calm entry_info)

  pub delete-calm : (alias : String) → delete alias env w ≡ (ok tt, on_folders (remove_all alias) w)
  unfolding delete
  delete-calm alias = ground (arith, calm (remove_folder alias))

  -- The folder is made, and the file written into it.
  pub upload-calm :
      (content alias filename : String)
      → upload content alias filename env w ≡ (ok tt, full content alias filename w)
  unfolding upload fill_file copy_content ◌>>=◌
  upload-calm content alias filename = ground (
    arith,
    calm make_folder,
    calm create_file,
    calm check_context,
    calm copy_file,
    calm sync_file,
  )
