-- ===== src/Http/System.antt =====
-- The server as a whole: the requests on files and the worker's rounds, in any order, keep the
-- table valid.
use expire_share_api.Prelude.{Star, start, step, ℤ, Option, arith, pos, true, ◌≡◌, ltb_ℤ}
use expire_share_api.World.{World, Env, Result, ok, err, opened_file}
use expire_share_api.Storage.{Opened}
use expire_share_api.Files.Consistent.{
  Consistent, upload_file-Consistent, download_file-Consistent, delete_file-Consistent,
  get_file-Consistent, get_all_files-Consistent, get_files_stat-Consistent,
}
use expire_share_api.Worker.{round}
use expire_share_api.Worker.Expiry.{round-Aged}
use expire_share_api.Http.Text.{parse_int}
use expire_share_api.Http.FileHandlers.{
  after_download, form_downloads, bounded_downloads, parsed, ServiceConfig,
}
use expire_share_api.Http.Middlewares.{Server}
use expire_share_api.Http.Routes.{App, Arrival, Route, serve}
use expire_share_api.Http.Leaves.{Leaves}
use expire_share_api.Http.Serving.{Keeps, Admits, Any, Suits-Any, serve-Keeps}

closing-Consistent :
    (app : App) (a : Arrival) (x : Result Opened × World)
    → Consistent app.platform x.1
    → Consistent app.platform (after_download app.type_of a.copied x).1
closing-Consistent app a (ok o, u) h = h
closing-Consistent app a (err e, u) h = h

abbrev pub Positive : ℤ → Type 0
Positive n = ltb_ℤ (pos 0) n ≡ true

bounded-Positive : (o : Option ℤ) (n : ℤ) → bounded_downloads o ≡ parsed n → Positive n
bounded-Positive o n h = ground arith

-- A form's count of downloads is positive when the configured one is.
pub form-Positive : (cfg : ServiceConfig) → Positive cfg.max_downloads → Admits Positive cfg
unfolding form_downloads
form-Positive cfg d text n h = ground (arith, bounded-Positive (parse_int 16 text) n)

pub Keeps-Consistent :
    (app : App) (a : Arrival) → Keeps Positive Any (Consistent app.platform) app a
Keeps-Consistent app a = record {
  upload = λ cmd w d c.
      upload_file-Consistent app.platform a.env (opened_file w) c app.permissions cmd a.alias d;
  download =
      λ cmd w _ c. closing-Consistent app a _ (download_file-Consistent app.platform a.env w c cmd);
  delete = λ cmd w _ c. delete_file-Consistent app.platform a.env w c cmd;
  get = λ now cmd w c. get_file-Consistent app.platform a.env w c now cmd;
  list = λ now cmd w c. get_all_files-Consistent app.platform a.env w c now cmd;
  stat = λ user w c. get_files_stat-Consistent app.platform a.env w c app.permissions user;
}

-- Any request on a file route, with any headers and whatever its calls meet.
pub serve-Consistent :
    (app : App)
    → ltb_ℤ (pos 0) app.service.max_downloads ≡ true
    → (a : Arrival) (s : Server) (route : Route) → Consistent app.platform s.world
    → Leaves (Consistent app.platform) (serve app a route s)
serve-Consistent app d a s route c =
    serve-Keeps Positive Any (Consistent app.platform) app (form-Positive app.service d) a
      (Keeps-Consistent app a) s route (Suits-Any s.world route) c

-- One step of the server: it serves a request, or the worker makes a round.
pub data Step (app : App) : Server → Server → Type 0 where
  request : (a : Arrival) (route : Route) (s : Server) → Step app s (serve app a route s).1
  tick :
      (env : Env) (s : Server)
      → Step app s (record s { world = (round app.platform env s.world).1 })

-- The states that a server reaches by steps.
abbrev pub Reaches : App → Server → Server → Type 0
Reaches app s t = Star (Step app) s t

pub Step-Consistent :
    (app : App) (d : ltb_ℤ (pos 0) app.service.max_downloads ≡ true) {s t : Server}
    → Step app s t
    → Consistent app.platform s.world
    → Consistent app.platform t.world
Step-Consistent app d (request a route s) c = serve-Consistent app d a s route c
Step-Consistent app d (tick env s) c =
    let r = round-Aged app.platform env s.world c.0 c.1 "" in (r.0, r.1)

-- Where the configured number of downloads is positive: whatever requests a server serves and
-- whatever rounds the worker makes, in any order and with any failures, a server that starts with a
-- valid table and no transaction open is in such a state again after each of them. In a valid table
-- no two rows have the same alias, and every row has downloads left.
pub Reaches-Consistent :
    (app : App) (s t : Server)
    → ltb_ℤ (pos 0) app.service.max_downloads ≡ true
    → Consistent app.platform s.world
    → Reaches app s t
    → Consistent app.platform t.world
Reaches-Consistent app s t d c start = c
Reaches-Consistent app s u d c (step r e) =
    Step-Consistent app d e (Reaches-Consistent app s _ d c r)
