-- ===== src/RateLimiter.antt =====
-- internal/infrastructure/redis/rate_limiter.go: the counters of the rate limiter. The Lua script
-- runs as one step. Redis drops a key when its time to live is over; times are whole seconds.
pub mod Keys
pub mod Held
pub mod Window
use Prim.Native.String
use expire_share_api.Prelude.{
  ℕ, ◌+◌, Bool, true, false, String, Option, none, some, List, [], ◌∷◌, ◌==◌, if◌then◌else◌, ltb,
  leb, eqb,
}
use expire_share_api.Domain.{Error, wrap}
use expire_share_api.World.{Result, ok, err, Fault, error_of}

-- config.RateLimiterParams, with the durations cut to whole seconds as `int(d.Seconds())` does.
pub record Params : Type 0 where
  pub field : String
  pub max_attempts : ℕ
  pub window : ℕ
  pub block_duration : ℕ

-- A key's count, and when it expires (`none`: never).
pub record Counter : Type 0 where
  pub count : ℕ
  pub expires : Option ℕ

abbrev pub Store : Type 0
Store = List (String × Counter)

abbrev pub is_live : ℕ → Option ℕ → Bool
is_live now none = true
is_live now (some t) = ltb now t

-- The counter of a key, unless it is gone.
unfoldable pub lookup : String → ℕ → Store → Option Counter
lookup key now [] = none
lookup key now ((k, c) ∷ m) =
    if k == key then (if is_live now c.expires then some c else none) else lookup key now m

unfoldable pub insert : String → Counter → Store → Store
insert key c [] = (key, c) ∷ []
insert key c ((k, d) ∷ m) = if k == key then (key, c) ∷ m else (k, d) ∷ insert key c m

-- DEL
unfoldable pub remove : String → Store → Store
remove key [] = []
remove key ((k, d) ∷ m) = if k == key then remove key m else (k, d) ∷ remove key m

-- INCR: a key that is not there starts at 0, and INCR leaves the time to live alone.
abbrev pub incremented : Option Counter → Counter
incremented none = record { count = 1; expires = none }
incremented (some c) = record c { count = c.count + 1 }

-- EXPIRE: a time to live that is not positive deletes the key.
unfoldable pub expire : String → Counter → ℕ → ℕ → Store → Store
expire key c now ttl m =
    if eqb ttl 0 then remove key m else insert key (record c { expires = some (now + ttl) }) m

-- The first request of a window sets the time to live.
unfoldable pub open_window : Params → String → Counter → ℕ → Store → Store
open_window ps key c now m =
    if eqb c.count 1 then expire key c now ps.window (insert key c m) else insert key c m

-- The script. A request over the limit sets the time to live again, to the block's.
unfoldable pub allow_script : Params → String → ℕ → Store → Bool × Store
allow_script ps key now m =
    let c = incremented (lookup key now m) in
    let opened = open_window ps key c now m in
    if ltb ps.max_attempts c.count
    then (false, expire key c now ps.block_duration opened)
    else (true, opened)

-- fmt.Sprintf("%s:%s:%s", prefix, field, value)
pub key_of : Params → String → String
key_of ps value = String.◌++◌ "rate:" (String.◌++◌ ps.field (String.◌++◌ ":" value))

-- RateLimiter.Allow; `fault` is what the call to Redis meets.
unfoldable pub allow : Params → Option Fault → String → ℕ → Store → Result Bool × Store
allow ps none value now m =
    let (allowed, m') = allow_script ps (key_of ps value) now m in (ok allowed, m')
allow ps (some f) value now m =
    (err (wrap "infrastructure.redis.RateLimiter.Allow" (error_of f)), m)

-- RateLimiter.Reset
pub reset : Params → Option Fault → String → Store → Result (Unit {0}) × Store
reset ps none value m = (ok tt, remove (key_of ps value) m)
reset ps (some f) value m =
    (err (wrap "infrastructure.redis.RateLimiter.Reset: failed to del key" (error_of f)), m)

-- The answers to the requests for one value, at the times given.
unfoldable pub answers : Params → String → List ℕ → Store → List Bool × Store
answers ps key [] m = ([], m)
answers ps key (t ∷ ts) m =
    let (allowed, m') = allow_script ps key t m in
    let (more, m'') = answers ps key ts m' in (allowed ∷ more, m'')
