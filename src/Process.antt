-- ===== src/Process.antt =====
-- The life of the process: what main, the apps of internal/app and the migration tool call, in
-- which order, and where the process ends. A step returns, ends the process with an exit code
-- (os.Exit and log.Fatal), or panics.
pub mod Connections
pub mod Ready
pub mod Startup
pub mod Migration
use expire_share_api.Prelude.{ℕ, String, Option, none, some, List, ◌∷◌}
use expire_share_api.Domain.{Error, opaque}
use expire_share_api.World.{Result, ok, err, Done}

-- The calls out of the process that leave a mark.
pub data Op : Type 0 where
  open_migrations run_migrations revert_migration close_migrations : Op
  open_db ping_db close_db : Op
  dial_auth close_auth ping_redis close_redis : Op
  start_http start_worker shutdown_http : Op

-- How a call fails. The first two are values that the program asks for by errors.Is.
pub data Failure : Type 0 where
  no_change server_closed : Failure
  broken : String → Failure

abbrev pub failure_of : Failure → Error
failure_of no_change = opaque "no change"
failure_of server_closed = opaque "http: Server closed"
failure_of (broken s) = opaque s

-- connectivity.State
pub data Connectivity : Type 0 where
  idle connecting ready transient_failure down : Connectivity

-- What the process meets: the calls that fail, the states of the connection to the auth service
-- at the ticks of tryToConnect before its context ends, and how ListenAndServe ends before a
-- signal comes, if it does. `decoded_secret` is what base64 decodes ADMIN_SECRET_BASE64 to, if it does;
-- a variable that is not set reads as the empty text.
pub record Outside : Type 0 where
  pub fault : Op → Option Failure
  pub states : List Connectivity
  pub server_end : Option Failure
  pub decoded_secret : Option String

pub data Outcome (A : Type 0) : Type 0 where
  goes : A → Outcome A
  exits : ℕ → Outcome A
  panics : Outcome A

-- The calls made so far, the last one first.
abbrev pub Trace : Type 0
Trace = List Op

abbrev pub Proc : Type 0 → Type 0
Proc A = Outside → Trace → Outcome A × Trace

module _ {A : Type 0} where
  unfoldable pub pure : A → Proc A
  pure a o t = (goes a, t)

  unfoldable pub exit : ℕ → Proc A
  exit n o t = (exits n, t)

  unfoldable pub panic : Proc A
  panic o t = (panics, t)

-- A call, and how it failed.
unfoldable pub call : Op → Proc (Option Failure)
call op o t = (goes (o.fault op), op ∷ t)

infixl 5 ◌>>=◌ ◌>>◌
unfoldable pub ◌>>=◌ : {A B : Type 0} → Proc A → (A → Proc B) → Proc B
unfolding pure exit panic call
◌>>=◌ m f o t =
    let (r, t') = m o t in
    elim r [ goes a ↦ f a o t' | exits n ↦ (exits n, t') | panics ↦ (panics, t') ]

abbrev pub ◌>>◌ : {A B : Type 0} → Proc A → Proc B → Proc B
m >> k = m >>= λ _. k

-- `if err := ...; err != nil { os.Exit(1) }`, and the same with log.Fatal.
abbrev pub or_exit : {A : Type 0} → Result A → Proc A
or_exit (ok a) = pure a
or_exit (err e) = exit 1
