-- ===== src/Process/Migration.antt =====
-- cmd/migrate/main.go: the migration tool. Every log.Fatal ends the process at once, so that the
-- deferred Close of the database runs only where main returns.
use expire_share_api.Prelude.{
  String, Option, none, some, List, [], ◌∷◌, ◌≡◌, ap, ◌↔◌, inl, inr, arith, ◌==◌, if◌then◌else◌,
  Option-cases,
}
use expire_share_api.World.{ok, Done}
use expire_share_api.Config.Load.{Config, Surroundings, load}
use expire_share_api.Process.{
  Op, Failure, Outside, Proc, goes, pure, exit, call, or_exit, ◌>>=◌, ◌>>◌, open_migrations,
  run_migrations, revert_migration, open_db, ping_db, close_db,
}
use expire_share_api.Process.Connections.{unless_no_change, Result-cases}

-- `if err != nil { log.Fatalf(...) }`
abbrev fatal : Option Failure → Proc Done
fatal none = pure tt
fatal (some f) = exit 1

-- The map `operations`.
unfoldable pub operation : String → Option Op
operation name =
    if name == "up"
    then some run_migrations
    else if name == "down"
    then some revert_migration
    else none

unfoldable pub operated : Option Op → Proc Done
operated none = exit 1
operated (some op) = do ran ← call op; fatal (unless_no_change ran)

-- main, from the opened database on.
unfoldable pub migrated : String → Proc Done
unfolding operated
migrated name = do
  ping ← call ping_db
  fatal ping
  opened ← call open_migrations
  fatal opened
  operated (operation name)
  closed ← call close_db
  fatal closed

-- main, with os.Args
unfoldable pub main : List String → Surroundings → Proc Done
unfolding migrated
main [] s = exit 1
main (program ∷ []) s = exit 1
main (program ∷ name ∷ more) s = do
  cfg ← or_exit (load s)
  opened ← call open_db
  fatal opened
  migrated name

-- What a run of the tool needs.
pub record Migrates (name : String) (s : Surroundings) (o : Outside) : Type 0 where
  pub config : Config
  pub loaded : load s ≡ ok config
  pub op : Op
  pub named : operation name ≡ some op
  pub opened : o.fault open_db ≡ none
  pub answers : o.fault ping_db ≡ none
  pub migrations : o.fault open_migrations ≡ none
  pub ran : unless_no_change (o.fault op) ≡ none

module _ (program name : String) (more : List String) (s : Surroundings) (o : Outside) where
  complete :
      (m : Migrates name s o)
      → o.fault close_db ≡ none
      → main (program ∷ name ∷ more) s o []
        ≡ (goes tt, close_db ∷ m.op ∷ open_migrations ∷ ping_db ∷ open_db ∷ [])
  unfolding main migrated operated ◌>>=◌
  complete m c = ground (arith, m.loaded, m.named, m.opened, m.answers, m.migrations, m.ran)

  sound :
      (main (program ∷ name ∷ more) s o []).0 ≡ goes tt
      → Migrates name s o × (o.fault close_db ≡ none)
  unfolding main migrated operated ◌>>=◌
  sound h = elim (Result-cases (load s)) [
    | inl (e, l) ↦ ground arith
    | inr (cfg, l) ↦ elim (Option-cases (operation name)) [
      | inl n ↦ ground arith
      | inr (op, n) ↦ (
        record {
          config = cfg;
          loaded = l;
          op = op;
          named = n;
          opened = ground arith;
          answers = ground arith;
          migrations = ground arith;
          ran = ground arith;
        },
        ground arith,
      )
    ]
  ]

  -- The migration tool, called with an operation: it returns exactly where the configuration is
  -- loaded, the operation is up or down, the database opens, answers and closes, the migrations are
  -- found, and the operation succeeds or has nothing to change. It then has opened and closed the
  -- database once, and made the operation between.
  pub tool_iff : ((main (program ∷ name ∷ more) s o []).0 ≡ goes tt) ↔ (
      (m : Migrates name s o) × (o.fault close_db ≡ none)
      × ((main (program ∷ name ∷ more) s o []).1
          ≡ close_db ∷ m.op ∷ open_migrations ∷ ping_db ∷ open_db ∷ []))
  tool_iff = (
    λ h. let (m, c) = sound h in (m, c, ap (λ x. x.1) (complete m c)),
    λ (m, c, t). ap (λ x. x.0) (complete m c),
  )
