-- ===== src/Worker/Sweeps.antt =====
-- The loop over the aliases of a batch: it changes their folders only.
use expire_share_api.Prelude.{
  String, List, [], ◌∷◌, Bool, true, false, none, ◌≡◌, ◌≢◌, refl, arith, ◌==◌, eq_iff,
  if◌then◌else◌,
}
use expire_share_api.World.{World, Env, Result, ok, err, Done, Stored, remove_folder}
use expire_share_api.World.Post.{Post}
use expire_share_api.Storage.{entries, delete, remove_all, remove_some, on_folders}
use expire_share_api.Storage.Folders.{entries-remove_all, entries-remove_some}
use expire_share_api.Storage.Effects.{delete-Post}
use expire_share_api.Worker.{Sweep, sweep, sweep_end}

abbrev pub lists : String → List String → Bool
lists a [] = false
lists a (b ∷ bs) = if b == a then true else lists a bs

-- The state but for the folders of the listed aliases.
pub record Sweeps (aliases : List String) (w w' : World) : Type 0 where
  pub rows : w'.rows ≡ w.rows
  pub tx : w'.tx ≡ w.tx
  pub handles : w'.open_files ≡ w.open_files
  pub folders : (a : String) → lists a aliases ≡ false → entries a w'.folders ≡ entries a w.folders

Sweeps-refl : (aliases : List String) (w : World) → Sweeps aliases w w
Sweeps-refl aliases w = record { rows = refl; tx = refl; handles = refl; folders = λ a h. refl }

Sweeps-next :
    (alias : String) (rest : List String) (w w' : World)
    → Sweeps rest (on_folders (remove_all alias) w) w'
    → Sweeps (alias ∷ rest) w w'
Sweeps-next alias rest w w' s = record {
  rows = s.rows;
  tx = s.tx;
  handles = s.handles;
  folders =
      λ a h. ground (arith, s.folders a, entries-remove_all alias a w.folders, eq_iff alias a);
}

-- A removal that breaks off ends the sweep.
Sweeps-broken :
    (spares : Stored → Bool) (alias : String) (rest : List String) (w : World)
    → Sweeps (alias ∷ rest) w (on_folders (remove_some spares alias) w)
Sweeps-broken spares alias rest w = record {
  rows = refl;
  tx = refl;
  handles = refl;
  folders = λ a h. ground (arith, entries-remove_some spares alias a w.folders, eq_iff alias a);
}

pub sweep-Sweeps :
    (aliases : List String) (env : Env) (w : World) → Sweeps aliases w (sweep aliases env w).1
unfolding sweep
sweep-Sweeps [] env w = Sweeps-refl [] w
sweep-Sweeps (alias ∷ rest) env w =
    step (delete alias env w) (delete-Post alias env w)
      (sweep-Sweeps rest env (on_folders (remove_all alias) w))
  where
    step :
        (x : Result Done × World)
        → Post
            (λ _ w'. w' ≡ on_folders (remove_all alias) w)
            (λ _ w'.
              (w' ≡ on_folders (remove_some (env.spares alias) alias) w)
              × (env.fault (remove_folder alias) ≢ none))
            x
        → Sweeps rest
            (on_folders (remove_all alias) w)
            (sweep rest env (on_folders (remove_all alias) w)).1
        → Sweeps
            (alias ∷ rest)
            w
            (elim x.0 as (λ _. Sweep × World) [
              | ok _ ↦ sweep rest env x.1
              | err e ↦ (sweep_end e.cause, x.1)
            ]).1
    step (ok _, w') h s = rw h.holds (Sweeps-next alias rest w _ s)
    step (err e, w') h s = rw h.holds.0 (Sweeps-broken _ alias rest w)
