-- ===== src/Storage/Folders.antt =====
-- The folder operations as a map from aliases to the entries of a folder.
use expire_share_api.Prelude.{
  String, Option, none, some, List, [], ◌∷◌, ◌≡◌, arith, ◌==◌, eq_iff, if◌then◌else◌, Bool, true,
  false, ◌||◌, keep,
}
use expire_share_api.World.{Folder, Stored}
use expire_share_api.Storage.{entries, add_folder, write_file, write_entry, remove_all, remove_some}

-- The entries of a folder that may not be there.
abbrev pub listed : Option (List Stored) → List Stored
listed none = []
listed (some es) = es

abbrev pub written : Stored → Option (List Stored) → Option (List Stored)
written e none = none
written e (some es) = some (write_entry e es)

pub entries-add_folder :
    (a b : String) (fs : List Folder)
    → entries b (add_folder a fs) ≡ (if a == b then some (listed (entries b fs)) else entries b fs)
unfolding entries add_folder
entries-add_folder a b [] = ground (arith, eq_iff a b)
entries-add_folder a b (f ∷ fs) =
    ground (arith, eq_iff f.name a, eq_iff f.name b, eq_iff a b, entries-add_folder a b fs)

pub entries-write_file :
    (a b : String) (e : Stored) (fs : List Folder)
    → entries b (write_file a e fs) ≡ (if a == b then written e (entries b fs) else entries b fs)
unfolding entries write_file
entries-write_file a b e [] = ground (arith, eq_iff a b)
entries-write_file a b e (f ∷ fs) =
    ground (arith, eq_iff f.name a, eq_iff f.name b, eq_iff a b, entries-write_file a b e fs)

pub entries-remove_all :
    (a b : String) (fs : List Folder)
    → entries b (remove_all a fs) ≡ (if a == b then none else entries b fs)
unfolding entries remove_all
entries-remove_all a b [] = ground (arith, eq_iff a b)
entries-remove_all a b (f ∷ fs) =
    ground (arith, eq_iff f.name a, eq_iff f.name b, eq_iff a b, entries-remove_all a b fs)

abbrev pub spared : (Stored → Bool) → Option (List Stored) → Option (List Stored)
spared s none = none
spared s (some es) = some (keep s es)

pub entries-remove_some :
    (s : Stored → Bool) (a b : String) (fs : List Folder)
    → entries b (remove_some s a fs) ≡ (if a == b then spared s (entries b fs) else entries b fs)
unfolding entries remove_some
entries-remove_some s a b [] = ground (arith, eq_iff a b)
entries-remove_some s a b (f ∷ fs) =
    ground (arith, eq_iff f.name a, eq_iff f.name b, eq_iff a b, entries-remove_some s a b fs)

-- A file that is written twice stands in its folder once, with what was written last.
pub write_entry-write_entry :
    (x y : Stored) → x.name ≡ y.name → write_entry x (write_entry y []) ≡ x ∷ []
unfolding write_entry
write_entry-write_entry x y h = ground (arith, h, eq_iff x.name y.name)

-- A file of this name stands in the folder.
abbrev pub has_entry : String → List Stored → Bool
has_entry name [] = false
has_entry name (e ∷ es) = e.name == name || has_entry name es

abbrev pub holds_file : String → Option (List Stored) → Bool
holds_file name none = false
holds_file name (some es) = has_entry name es

pub has_entry-write_entry :
    (e : Stored) (es : List Stored) → has_entry e.name (write_entry e es) ≡ true
unfolding write_entry
has_entry-write_entry e [] = ground (arith, eq_iff e.name e.name)
has_entry-write_entry e (x ∷ xs) = ground (arith, eq_iff e.name e.name, has_entry-write_entry e xs)
