-- ===== src/Storage/Effects.antt =====
-- What each operation of the storage does to the state.
use expire_share_api.Prelude.{
  ◌+◌, String, Option, none, some, List, [], ◌∷◌, ◌≡◌, ◌≢◌, ◌⊎◌, Bool, inl, inr, refl, arith,
  eq_iff,
}
use expire_share_api.World.{World, Env, Stored, entry_info, remove_folder, lift, ◌>>=◌}
use expire_share_api.World.Post.{Post, Post-bind, Post-mono}
use expire_share_api.Storage.{
  Opened, entries, add_folder, write_file, write_entry, remove_all, on_folders, base, upload,
  copy_content, fill_file, remove_some, drop_folder, open_entry, read_dir, first_entry, download,
  delete,
}
use expire_share_api.Storage.Folders.{
  listed, entries-add_folder, entries-write_file, entries-remove_all, entries-remove_some,
}

-- Nothing but the folder of `alias` has changed.
pub record FolderOnly (alias : String) (w w' : World) : Type 0 where
  pub rows : w'.rows ≡ w.rows
  pub tx : w'.tx ≡ w.tx
  pub open_files : w'.open_files ≡ w.open_files
  pub others : (a : String) → alias ≢ a → entries a w'.folders ≡ entries a w.folders

abbrev pub stored_file : String → String → Stored
stored_file content filename = record { name = base filename; content = content }

-- The folder of `alias` after a write to it.
abbrev pub uploaded : String → String → Option (List Stored) → Option (List Stored)
uploaded content filename old = some (
    write_entry (stored_file content filename) (write_entry (stored_file "" filename) (listed old)))

-- A folder that was not there holds the file alone.
pub uploaded-fresh :
    (content filename : String)
    → uploaded content filename none ≡ some (stored_file content filename ∷ [])
unfolding write_entry
uploaded-fresh content filename = ground (arith, eq_iff (base filename) (base filename))

pub delete-Post :
    (alias : String) (env : Env) (w : World)
    → Post
        (λ _ w'. w' ≡ on_folders (remove_all alias) w)
        (λ _ w'.
          (w' ≡ on_folders (remove_some (env.spares alias) alias) w)
          × (env.fault (remove_folder alias) ≢ none))
        (delete alias env w)
unfolding delete
delete-Post alias env w = record { holds = ground arith }

-- A failed download leaves the state alone, but for the handle that stays open where `Info` fails.
abbrev pub Leaked : Env → World → World → Type 0
Leaked env w w' =
    (w' ≡ w) ⊎ ((w' ≡ record w { open_files = w.open_files + 1 }) × (env.fault entry_info ≢ none))

open_entry-Post :
    (entry : Stored) (env : Env) (w : World)
    → Post
        (λ o w'. (w' ≡ record w { open_files = w.open_files + 1 }) × (o.entry ≡ entry))
        (λ _ w'. Leaked env w w')
        (open_entry entry env w)
unfolding open_entry ◌>>=◌
open_entry-Post entry env w = record { holds = ground arith }

read_dir-Post :
    (alias : String) (env : Env) (w : World)
    → Post
        (λ es w'. (w' ≡ w) × (entries alias w.folders ≡ some es))
        (λ _ w'. w' ≡ w)
        (read_dir alias env w)
unfolding read_dir
read_dir-Post alias env w = record { holds = ground arith }

-- What a download that goes through has opened.
pub record Opens (alias : String) (w : World) (o : Opened) (w' : World) : Type 0 where
  pub more : List Stored
  pub listing : entries alias w.folders ≡ some (o.entry ∷ more)
  pub opened : w' ≡ record w { open_files = w.open_files + 1 }

open_first :
    (alias : String) (es : List Stored) (env : Env) (w : World)
    → entries alias w.folders ≡ some es
    → Post
        (Opens alias w)
        (λ _ w'. Leaked env w w')
        (◌>>=◌ (lift (first_entry es)) open_entry env w)
unfolding ◌>>=◌
open_first alias [] env w h = record { holds = inl refl }
open_first alias (e ∷ es) env w h =
    Post-mono _ (λ o v q. record { more = es; listing = rw q.1 h; opened = q.0 }) (λ _ v q. q)
      (open_entry-Post e env w)

pub download-Post :
    (alias : String) (env : Env) (w : World)
    → Post (Opens alias w) (λ _ w'. Leaked env w w') (download alias env w)
unfolding download
download-Post alias env w =
    Post-bind env w _ _ (read_dir-Post alias env w)
      (λ es v q. rw q.0 (open_first alias es env w q.1)) (λ _ v q. inl q)

pub removed-FolderOnly :
    (alias : String) (w u : World)
    → FolderOnly alias w u
    → FolderOnly alias w (on_folders (remove_all alias) u)
removed-FolderOnly alias w u h = record {
  rows = h.rows;
  tx = h.tx;
  open_files = h.open_files;
  others =
      λ a ne. ground (arith, entries-remove_all alias a u.folders, eq_iff alias a, h.others a ne);
}

pub spared-FolderOnly :
    (spares : Stored → Bool) (alias : String) (w u : World)
    → FolderOnly alias w u
    → FolderOnly alias w (on_folders (remove_some spares alias) u)
spared-FolderOnly spares alias w u h = record {
  rows = h.rows;
  tx = h.tx;
  open_files = h.open_files;
  others = λ a ne.
      ground (arith, entries-remove_some spares alias a u.folders, eq_iff alias a, h.others a ne);
}

pub FolderOnly-refl : (alias : String) (w : World) → FolderOnly alias w w
FolderOnly-refl alias w = record {
  rows = refl;
  tx = refl;
  open_files = refl;
  others = λ a ne. refl;
}

-- The folders after each step of an upload.
module _ (content alias filename : String) where
  abbrev created : World → World
  created w = on_folders (add_folder alias) w

  abbrev blank : World → World
  blank w = on_folders (write_file alias (stored_file "" filename)) (created w)

  abbrev pub full : World → World
  full w = on_folders (write_file alias (stored_file content filename)) (blank w)

  -- A copy that broke off.
  abbrev half : Env → World → World
  half env w = on_folders (write_file alias (stored_file env.copied_part filename)) (blank w)

  abbrev Stopped : Env → World → World → Type 0
  Stopped env w w' =
      (w' ≡ w)
      ⊎ (w' ≡ created w)
      ⊎ (w' ≡ blank w)
      ⊎ (w' ≡ full w)
      ⊎ (w' ≡ on_folders (remove_all alias) (half env w))
      ⊎ (w' ≡ on_folders (remove_some (env.spares alias) alias) (half env w))

  upload_steps :
      (env : Env) (w : World)
      → Post (λ _ w'. w' ≡ full w) (λ _ w'. Stopped env w w') (upload content alias filename env w)
  unfolding upload fill_file copy_content drop_folder ◌>>=◌
  upload_steps env w = record { holds = ground arith }

  created-FolderOnly : (w : World) → FolderOnly alias w (created w)
  created-FolderOnly w = record {
    rows = refl;
    tx = refl;
    open_files = refl;
    others = λ a ne. ground (arith, entries-add_folder alias a w.folders, eq_iff alias a);
  }

  written-FolderOnly :
      (e : Stored) (w u : World)
      → FolderOnly alias w u
      → FolderOnly alias w (on_folders (write_file alias e) u)
  written-FolderOnly e w u h = record {
    rows = h.rows;
    tx = h.tx;
    open_files = h.open_files;
    others = λ a ne.
        ground (arith, entries-write_file alias a e u.folders, eq_iff alias a, h.others a ne);
  }

  pub full-uploaded :
      (w : World)
      → entries alias (full w).folders ≡ uploaded content filename (entries alias w.folders)
  full-uploaded w = ground (
    arith,
    eq_iff alias alias,
    entries-add_folder alias alias w.folders,
    entries-write_file alias alias (stored_file "" filename) (created w).folders,
    entries-write_file alias alias (stored_file content filename) (blank w).folders,
  )

  blank-FolderOnly : (w : World) → FolderOnly alias w (blank w)
  blank-FolderOnly w = written-FolderOnly _ w (created w) (created-FolderOnly w)

  pub full-FolderOnly : (w : World) → FolderOnly alias w (full w)
  full-FolderOnly w = written-FolderOnly _ w (blank w) (blank-FolderOnly w)

  half-FolderOnly : (env : Env) (w : World) → FolderOnly alias w (half env w)
  half-FolderOnly env w = written-FolderOnly _ w (blank w) (blank-FolderOnly w)

  Stopped-FolderOnly : (env : Env) (w v : World) → Stopped env w v → FolderOnly alias w v
  Stopped-FolderOnly env w v (inl e) = rw e (FolderOnly-refl alias w)
  Stopped-FolderOnly env w v (inr (inl e)) = rw e (created-FolderOnly w)
  Stopped-FolderOnly env w v (inr (inr (inl e))) = rw e (blank-FolderOnly w)
  Stopped-FolderOnly env w v (inr (inr (inr (inl e)))) = rw e (full-FolderOnly w)
  Stopped-FolderOnly env w v (inr (inr (inr (inr (inl e))))) =
      rw e (removed-FolderOnly alias w (half env w) (half-FolderOnly env w))
  Stopped-FolderOnly env w v (inr (inr (inr (inr (inr e))))) =
      rw e (spared-FolderOnly _ alias w (half env w) (half-FolderOnly env w))

  pub upload-Post :
      (env : Env) (w : World)
      → Post
          (λ _ w'.
            FolderOnly alias w w'
            × (entries alias w'.folders ≡ uploaded content filename (entries alias w.folders)))
          (λ _ w'. FolderOnly alias w w')
          (upload content alias filename env w)
  upload-Post env w =
      Post-mono _ (λ _ v e. rw e (full-FolderOnly w, full-uploaded w))
        (λ _ v e. Stopped-FolderOnly env w v e) (upload_steps env w)
