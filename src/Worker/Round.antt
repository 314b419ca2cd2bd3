-- ===== src/Worker/Round.antt =====
-- What one round of the worker changes: the rows and the folders of expired files, and nothing else.
use expire_share_api.Worker.Sweeps.{lists, Sweeps, sweep-Sweeps}
use expire_share_api.Prelude.{
  String, none, some, List, Bool, true, false, ◌≡◌, ◌⊎◌, inl, inr, refl, ap, if◌then◌else◌,
}
use expire_share_api.World.{World, Env, Platform, Result, ok, err, Done, select_expired}
use expire_share_api.World.Post.{Post, Post-mono}
use expire_share_api.Storage.{entries}
use expire_share_api.Repo.{expired_aliases, commit_work, delete_expired_files_tx}
use expire_share_api.Repo.Effects.{delete_expired-Post, without}
use expire_share_api.Repo.Transactions.{TxOnly, TxOnly-of_tx, begin-Post, commit_work-Post}
use expire_share_api.Worker.{
  Sweep, swept, canceled_by_ctx, broken_off, sweep, finish, after_sweep, after_select, after_begin,
  round, batch_limit,
}

-- A name stands in a list.
module _ (p : Platform) (env : Env) (w : World) where
  -- The aliases that the round has found expired.
  abbrev pub batch : List String
  batch = expired_aliases batch_limit (env.now select_expired) w.rows

  pub record Rounds (w' : World) : Type 0 where
    pub closed : w'.tx ≡ none
    pub rows : (w'.rows ≡ w.rows) ⊎ (w'.rows ≡ without p batch w.rows)
    pub handles : w'.open_files ≡ w.open_files
    pub folders : (a : String) → lists a batch ≡ false → entries a w'.folders ≡ entries a w.folders

  abbrev deleted : World
  deleted = record w { tx = some (without p batch w.rows) }

  settle :
      (b : Bool) (u : World)
      → u.rows ≡ w.rows
      → ((if b then without p batch w.rows else u.rows) ≡ w.rows)
        ⊎ ((if b then without p batch w.rows else u.rows) ≡ without p batch w.rows)
  settle true u h = inr refl
  settle false u h = inl h

  commit-Rounds :
      (u : World) (s : Sweeps batch deleted u) (x : Result Done × World)
      → Post
          (λ _ v. v ≡ record u { rows = without p batch w.rows; tx = none })
          (λ _ v. v ≡ record u {
            rows = if env.commit_applied then without p batch w.rows else u.rows;
            tx = none;
          })
          x
      → Rounds x.1
  commit-Rounds u s (ok _, v) h =
      rw h.holds record { closed = refl; rows = inr refl; handles = s.handles; folders = s.folders }
  commit-Rounds u s (err e, v) h = rw h.holds record {
    closed = refl;
    rows = settle env.commit_applied u s.rows;
    handles = s.handles;
    folders = s.folders;
  }

  finish-Rounds : (u : World) → Sweeps batch deleted u → Rounds (finish env u).1
  unfolding finish
  finish-Rounds u s = commit-Rounds u s (commit_work env u) (commit_work-Post env u _ s.tx)

  after_sweep-Rounds : (x : Sweep × World) → Sweeps batch deleted x.1 → Rounds (after_sweep env x).1
  after_sweep-Rounds (swept, u) s = finish-Rounds u s
  after_sweep-Rounds (canceled_by_ctx, u) s = record {
    closed = refl;
    rows = inl s.rows;
    handles = s.handles;
    folders = s.folders;
  }
  after_sweep-Rounds (broken_off, u) s = record {
    closed = refl;
    rows = inl s.rows;
    handles = s.handles;
    folders = s.folders;
  }

  after_select-Rounds :
      (x : Result (List String) × World)
      → Post
          (λ found w'. (found ≡ batch) × (w' ≡ record w { tx = some (without p found w.rows) }))
          (λ _ w'. TxOnly w w')
          x
      → Rounds (after_select env x).1
  after_select-Rounds (ok aliases, u) h =
      rw (h.holds.1, h.holds.0)
        (after_sweep-Rounds (sweep batch env deleted) (sweep-Sweeps batch env deleted))
  after_select-Rounds (err e, u) h = record {
    closed = refl;
    rows = inl h.holds.rows;
    handles = h.holds.open_files;
    folders = λ a q. ap (entries a) h.holds.folders;
  }

  begun-Rounds :
      (x : Result Done × World)
      → w.tx ≡ none
      → Post (λ _ v. v ≡ record w { tx = some w.rows }) (λ _ v. v ≡ w) x
      → Rounds (after_begin p env x).1
  begun-Rounds (ok _, v) idle h =
      let begun : World = record w { tx = some w.rows } in
      rw h.holds (
        after_select-Rounds (delete_expired_files_tx p batch_limit env begun) (
          Post-mono _ (λ _ u d. d) (λ _ u t. TxOnly-of_tx w t)
            (delete_expired-Post p batch_limit env begun w.rows refl)))
  begun-Rounds (err e, v) idle h =
      rw h.holds record { closed = idle; rows = inl refl; handles = refl; folders = λ a q. refl }

  pub round-Rounds : w.tx ≡ none → Rounds (round p env w).1
  unfolding round
  round-Rounds idle = begun-Rounds _ idle (begin-Post env w)
