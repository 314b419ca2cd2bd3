-- ===== src/Storage/Frame.antt =====
-- The storage works on the folders and the handles only: whatever the tables are, it answers the
-- same, does the same, and leaves them.
use expire_share_api.Prelude.{String, Option, List, ◌≡◌, arith}
use expire_share_api.Domain.{File}
use expire_share_api.World.{World, Env, Result, ◌>>=◌}
use expire_share_api.Storage.{
  upload, download, delete, copy_content, fill_file, drop_folder, read_dir, open_entry,
}

module _ (rows : List File) (tx : Option (List File)) where
  abbrev pub with_tables : World → World
  with_tables w = record w { rows = rows; tx = tx }

  abbrev pub framed : {A : Type 0} → Result A × World → Result A × World
  framed x = (x.0, with_tables x.1)

  pub delete-framed :
      (a : String) (env : Env) (w : World) → delete a env (with_tables w) ≡ framed (delete a env w)
  unfolding delete
  delete-framed a env w = ground arith

  pub download-framed :
      (a : String) (env : Env) (w : World)
      → download a env (with_tables w) ≡ framed (download a env w)
  unfolding download read_dir open_entry ◌>>=◌
  download-framed a env w = ground arith

  pub upload-framed :
      (content a name : String) (env : Env) (w : World)
      → upload content a name env (with_tables w) ≡ framed (upload content a name env w)
  unfolding upload fill_file copy_content drop_folder ◌>>=◌
  upload-framed content a name env w = ground arith
