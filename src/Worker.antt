-- ===== src/Worker.antt =====
-- internal/services/worker/worker.go: the loop that deletes expired files, one round for each tick.
pub mod Sweeps
pub mod Expired
pub mod Round
pub mod Expiry
pub mod Progress
use expire_share_api.Prelude.{ℕ, String, Option, none, some, List, [], ◌∷◌}
use expire_share_api.Domain.{Error, Cause, canceled}
use expire_share_api.World.{Action, Done, Env, World, Platform, Result, ok, err, rolled_back}
use expire_share_api.Storage.{delete}
use expire_share_api.Repo.{begin, commit_work, delete_expired_files_tx}

abbrev pub batch_limit : ℕ
batch_limit = 100

-- How the loop goes on: it waits five seconds first, waits for the next tick, or returns.
pub data Next : Type 0 where
  pause again stop : Next

-- How the loop over the aliases ends: all are deleted, the context was canceled, or another error
-- broke it off.
pub data Sweep : Type 0 where
  swept canceled_by_ctx broken_off : Sweep

sweep_end : Cause → Sweep
sweep_end canceled = canceled_by_ctx
sweep_end _ = broken_off

pub sweep : List String → Env → World → Sweep × World
unfolding sweep_end
sweep [] env w = (swept, w)
sweep (alias ∷ rest) env w =
    let (r, w') = delete alias env w in
    elim r [ ok _ ↦ sweep rest env w' | err e ↦ (sweep_end e.cause, w') ]

-- `tx.Commit()`: the loop goes on whether it fails or not.
finish : Env → World → Next × World
finish env w = let (r, w') = commit_work env w in (again, w')

abbrev after_sweep : Env → Sweep × World → Next × World
after_sweep env (swept, w) = finish env w
after_sweep env (canceled_by_ctx, w) = (stop, rolled_back w)
after_sweep env (broken_off, w) = (again, rolled_back w)

abbrev after_select : Env → Result (List String) × World → Next × World
after_select env (ok aliases, w) = after_sweep env (sweep aliases env w)
after_select env (err e, w) = (again, rolled_back w)

abbrev after_begin : Platform → Env → Result Done × World → Next × World
after_begin p env (ok _, w) = after_select env (delete_expired_files_tx p batch_limit env w)
after_begin p env (err e, w) = (pause, w)

-- What FileWorker.Start does at one tick.
pub round : Platform → Env → World → Next × World
unfolding finish
round p env w = after_begin p env (begin env w)

-- Where the loop is after a round, from the state that the rest of the loop would reach.
abbrev pub after_round : Next → World → World → World
after_round pause rest w = rest
after_round again rest w = rest
after_round stop rest w = w

-- The loop: a tick for each environment, until it returns.
pub start : Platform → List Env → World → World
start p [] w = w
start p (env ∷ ticks) w =
    let (next, w') = round p env w in let rest = start p ticks w' in after_round next rest w'
