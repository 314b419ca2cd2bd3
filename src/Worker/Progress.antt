-- ===== src/Worker/Progress.antt =====
-- What a round of the worker gets done when no call fails.
use expire_share_api.Prelude.{
  ℕ, zero, suc, ◌≤◌, String, none, some, List, [], ◌∷◌, true, ◌≡◌, refl, ap, arith, eq_iff, length,
  take, keep, map,
}
use expire_share_api.Domain.{File}
use expire_share_api.World.{World, Env, Platform, Call, select_expired, Folder}
use expire_share_api.Storage.{entries, remove_all, on_folders}
use expire_share_api.Storage.Folders.{entries-remove_all}
use expire_share_api.Storage.Calm.{delete-calm}
use expire_share_api.Repo.Effects.{without}
use expire_share_api.Repo.Table.{row_at}
use expire_share_api.Repo.Calm.{begin-calm, delete_expired-calm, commit_work-calm}
use expire_share_api.Worker.{again, swept, sweep, round, finish, batch_limit}
use expire_share_api.Worker.Round.{batch}
use expire_share_api.Worker.Expired.{names, is_expired, row_at-without}
use expire_share_api.Worker.Sweeps.{lists}

take-all : {A : Type 0} (n : ℕ) (xs : List A) → length xs ≤ n → take n xs ≡ xs
take-all zero [] h = refl
take-all zero (x ∷ xs) h = absurd (omega (arith, h))
take-all (suc n) [] h = refl
take-all (suc n) (x ∷ xs) h = ap (λ ys. x ∷ ys) (take-all n xs (omega (arith, h)))

-- The folders when those of the aliases are removed one by one.
abbrev pub cleared : List String → List Folder → List Folder
cleared [] fs = fs
cleared (a ∷ more) fs = cleared more (remove_all a fs)

cleared-absent :
    (a : String) (aliases : List String) (fs : List Folder)
    → entries a fs ≡ none
    → entries a (cleared aliases fs) ≡ none
cleared-absent a [] fs h = h
cleared-absent a (b ∷ more) fs h =
    cleared-absent a more (remove_all b fs) (ground (arith, entries-remove_all b a fs))

cleared-listed :
    (a : String) (aliases : List String) (fs : List Folder)
    → lists a aliases ≡ true
    → entries a (cleared aliases fs) ≡ none
cleared-listed a [] fs h = cc
cleared-listed a (b ∷ more) fs h = ground (
  arith,
  cleared-absent a more (remove_all b fs),
  cleared-listed a more (remove_all b fs),
  entries-remove_all b a fs,
)

-- An expired row's alias is found.
module _ (p : Platform) (now : ℕ) where
  expired-names :
      (a : String) (rows : List File) (f : File)
      → row_at p a rows ≡ some f
      → is_expired now f ≡ true
      → (names p a (map (λ g. g.alias) (keep (is_expired now) rows)) ≡ true)
        × (lists f.alias (map (λ g. g.alias) (keep (is_expired now) rows)) ≡ true)
  expired-names a [] f h e = cc
  expired-names a (g ∷ gs) f h e =
      ground (arith, expired-names a gs f, eq_iff f.alias f.alias, eq_iff g.alias f.alias)

module _ (p : Platform) (env : Env) (calm : (c : Call) → env.fault c ≡ none) where
  sweep-calm :
      (aliases : List String) (w : World)
      → sweep aliases env w ≡ (swept, on_folders (cleared aliases) w)
  unfolding sweep
  sweep-calm [] w = refl
  sweep-calm (a ∷ more) w =
      ground (arith, delete-calm env calm w a, sweep-calm more (on_folders (remove_all a) w))

  pub round-calm :
      (w : World)
      → round p env w ≡ (
        again,
        record w {
          rows = without p (batch p env w) w.rows;
          tx = none;
          folders = cleared (batch p env w) w.folders;
        },
      )
  unfolding round finish
  round-calm w =
      let b = batch p env w in
      let u : World = record w { tx = some (without p b w.rows); folders = cleared b w.folders } in
      rw
        (
          begin-calm p env calm w,
          delete_expired-calm p env calm batch_limit (record w { tx = some w.rows }) w.rows refl,
          sweep-calm b (record w { tx = some (without p b w.rows) }),
          commit_work-calm p env calm u (without p b w.rows) refl,
        )
        refl

  -- Where no call fails and at most `batch_limit` rows are expired: after a round the row of an
  -- expired file is gone, and the folder of its alias too.
  pub round-clears :
      (w : World) (a : String) (f : File)
      → row_at p a w.rows ≡ some f
      → is_expired (env.now select_expired) f ≡ true
      → length (keep (is_expired (env.now select_expired)) w.rows) ≤ batch_limit
      → let w' = (round p env w).1 in
        (row_at p a w'.rows ≡ none) × (entries f.alias w'.folders ≡ none)
  round-clears w a f here gone few =
      let now = env.now select_expired in
      let all : batch p env w ≡ map (λ g. g.alias) (keep (is_expired now) w.rows) =
        ap (map (λ g. g.alias)) (take-all batch_limit (keep (is_expired now) w.rows) few) in
      let found = expired-names p now a w.rows f here gone in
      rw (round-calm w) (
        rw (row_at-without p a (batch p env w) w.rows, all, found.0) refl,
        cleared-listed f.alias (batch p env w) w.folders (rw all found.1),
      )
