-- ===== src/Worker/Expiry.antt =====
-- The worker deletes expired files only: the theorems on a round and on the whole loop.
use expire_share_api.Prelude.{
  String, none, some, List, [], ◌∷◌, true, false, ◌≡◌, ◌⊎◌, inl, inr, refl, ◌∙◌, arith, Bool-cases,
  All,
}
use expire_share_api.Domain.{File}
use expire_share_api.World.{World, Env, Platform, select_expired}
use expire_share_api.Storage.{entries}
use expire_share_api.Repo.Effects.{without}
use expire_share_api.Repo.Table.{row_at, IsValid}
use expire_share_api.Worker.{Next, pause, again, stop, round, start, after_round, batch_limit}
use expire_share_api.Worker.Round.{batch, round-Rounds}
use expire_share_api.Worker.Expired.{
  names, names-expired, row_at-without, without-IsValid, is_expired, lists-names,
}
use expire_share_api.Worker.Sweeps.{lists}

module _ (p : Platform) (env : Env) (w : World) (idle : w.tx ≡ none) (v : IsValid p w.rows) where
  rows-IsValid :
      (rows : List File)
      → (rows ≡ w.rows) ⊎ (rows ≡ without p (batch p env w) w.rows)
      → IsValid p rows
  rows-IsValid rows (inl e) = rw e v
  rows-IsValid rows (inr e) = rw e (without-IsValid p (batch p env w) w.rows v)

  -- The table after a round, alias by alias: a row is as before, or it is gone and had expired.
  abbrev pub Aged : String → List File → Type 0
  Aged a rows =
      (row_at p a rows ≡ row_at p a w.rows)
      ⊎ ((row_at p a rows ≡ none)
          × ((f : File) × (row_at p a w.rows ≡ some f)
              × (is_expired (env.now select_expired) f ≡ true)))

  rows-Aged :
      (a : String) (rows : List File)
      → (rows ≡ w.rows) ⊎ (rows ≡ without p (batch p env w) w.rows)
      → Aged a rows
  rows-Aged a rows (inl e) = inl (rw e)
  rows-Aged a rows (inr e) = elim (Bool-cases (names p a (batch p env w))) [
    | inl named ↦ inr (
      rw (e, row_at-without p a (batch p env w) w.rows, named),
      names-expired p a batch_limit (env.now select_expired) w.rows v named,
    )
    | inr free ↦ inl (rw (e, row_at-without p a (batch p env w) w.rows, free))
  ]

  -- With no transaction open and a valid table, whatever fails in the round: the table stays valid
  -- and no transaction stays open, and the row of each alias is as before, or it is gone and had
  -- expired when the round looked.
  pub round-Aged :
      (a : String)
      → let w' = (round p env w).1 in (w'.tx ≡ none) × IsValid p w'.rows × Aged a w'.rows
  round-Aged a =
      let r = round-Rounds p env w idle in (r.closed, rows-IsValid _ r.rows, rows-Aged a _ r.rows)

  -- With no transaction open and a valid table, whatever fails in the round: a file that has not
  -- expired when the round looks keeps its row and its folder.
  pub round-keeps_live :
      (a : String) (f : File)
      → row_at p a w.rows ≡ some f
      → is_expired (env.now select_expired) f ≡ false
      → let w' = (round p env w).1 in
        (row_at p a w'.rows ≡ some f) × (entries a w'.folders ≡ entries a w.folders)
  round-keeps_live a f here lives =
      let r = round-Rounds p env w idle in (kept _ r.rows, r.folders a unlisted)
    where
      unnamed : names p a (batch p env w) ≡ false
      unnamed = elim (Bool-cases (names p a (batch p env w))) [
        | inl named ↦
            let (g, e, x) = names-expired p a batch_limit (env.now select_expired) w.rows v named in
            absurd (ground arith)
        | inr free ↦ free
      ]

      unlisted : lists a (batch p env w) ≡ false
      unlisted = elim (Bool-cases (lists a (batch p env w))) [
        | inl listed ↦ ground (arith, lists-names p a (batch p env w) listed, unnamed)
        | inr free ↦ free
      ]

      kept :
          (rows : List File)
          → (rows ≡ w.rows) ⊎ (rows ≡ without p (batch p env w) w.rows)
          → row_at p a rows ≡ some f
      kept rows (inl e) = rw e here
      kept rows (inr e) = rw (e, row_at-without p a (batch p env w) w.rows, unnamed) here

-- A file and its folder are as they were, and the table is valid.
abbrev pub Keeps : Platform → String → File → World → World → Type 0
Keeps p a f w w' =
    (row_at p a w'.rows ≡ some f) × (entries a w'.folders ≡ entries a w.folders) × IsValid p w'.rows

Keeps-after_round :
    (p : Platform) (a : String) (f : File) (w rest w' : World) (next : Next)
    → Keeps p a f w w'
    → Keeps p a f w' rest
    → Keeps p a f w (after_round next rest w')
Keeps-after_round p a f w rest w' pause h k = (k.0, k.1 ∙ h.1, k.2)
Keeps-after_round p a f w rest w' again h k = (k.0, k.1 ∙ h.1, k.2)
Keeps-after_round p a f w rest w' stop h k = h

-- The whole loop, with no transaction open at its start and a valid table, whatever fails in its
-- rounds: a file that no round finds expired keeps its row and its folder, and the table is valid.
pub start-Keeps_live :
    (p : Platform) (ticks : List Env) (w : World) (a : String) (f : File)
    → w.tx ≡ none
    → IsValid p w.rows
    → row_at p a w.rows ≡ some f
    → All (λ env. is_expired (env.now select_expired) f ≡ false) ticks
    → Keeps p a f w (start p ticks w)
unfolding start
start-Keeps_live p [] w a f idle v here lives = (here, refl, v)
start-Keeps_live p (env ∷ ticks) w a f idle v here (now_lives, lives) =
    let aged = round-Aged p env w idle v a in
    let keeps = round-keeps_live p env w idle v a f here now_lives in
    let w' : World = (round p env w).1 in
    Keeps-after_round p a f w _ w' (round p env w).0 (keeps.0, keeps.1, aged.1)
      (start-Keeps_live p ticks w' a f aged.0 aged.1 keeps.0 lives)
