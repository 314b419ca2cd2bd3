-- ===== src/Http/Backed.antt =====
-- The files behind the rows, over the requests and the worker's rounds of a whole server.
use expire_share_api.Prelude.{
  none, ◌∷◌, ◌<◌, Star, start, step, ℕ, ◌≤◌, String, true, some, ◌≡◌, sym, ◌∙◌, inl, inr, arith,
  pos, ltb_ℤ, List,
}
use expire_share_api.Domain.{File}
use expire_share_api.World.{
  World, Env, Platform, Result, ok, err, select_expired, Call, Stored, remove_folder, opened_file,
}
use expire_share_api.Storage.{Opened, entries}
use expire_share_api.Repo.Table.{row_at}
use expire_share_api.Repo.Transactions.{Applies}
use expire_share_api.Files.Consistent.{
  Consistent, get_file-unchanged, get_all_files-unchanged, get_files_stat-unchanged,
}
use expire_share_api.Files.Backed.{
  Backed, row_at-own, upload_file-Backed, download_file-Backed, delete_file-Backed,
}
use expire_share_api.Files.{download_file, check_password}
use expire_share_api.Files.Progress.{Returns}
use expire_share_api.Files.Served.{backed-Returns}
use expire_share_api.Worker.{round}
use expire_share_api.Worker.Expiry.{Aged, round-Aged, round-keeps_live}
use expire_share_api.Http.FileHandlers.{after_download}
use expire_share_api.Http.Middlewares.{Server}
use expire_share_api.Http.Routes.{App, Arrival, Route, serve}
use expire_share_api.Http.Serving.{Keeps, Any, Suits-Any, serve-Keeps}
use expire_share_api.Http.System.{Positive, Keeps-Consistent, form-Positive}

-- A step that applies its commits, where it serves a request, and whose folder removals do not break
-- off; a round of the worker may fail in any way, and looks before `t`.
pub data Step (t : ℕ) (app : App) : Server → Server → Type 0 where
  request :
      (a : Arrival) (route : Route) (s : Server)
      → Applies a.env
      → ((alias : String) → a.env.fault (remove_folder alias) ≡ none)
      → Step t app s (serve app a route s).1
  tick :
      (env : Env) (s : Server)
      → env.now select_expired ≤ t
      → Step t app s (record s { world = (round app.platform env s.world).1 })

module _ (t : ℕ) where
  -- A state between two steps.
  abbrev pub Sound : Platform → World → Type 0
  Sound p w = Consistent p w × Backed p t w

  module _ (app : App) (a : Arrival) where
    closing-Backed :
        (x : Result Opened × World)
        → Backed app.platform t x.1
        → Backed app.platform t (after_download app.type_of a.copied x).1
    closing-Backed (ok o, u) b = b
    closing-Backed (err e, u) b = b

    Keeps-Sound :
        Applies a.env
        → ((alias : String) → a.env.fault (remove_folder alias) ≡ none)
        → Keeps Positive Any (Sound app.platform) app a
    Keeps-Sound applied clean =
        let p = app.platform in
        let k = Keeps-Consistent app a in
        record {
          upload = λ cmd w d c. (
            k.upload cmd w d c.0,
            upload_file-Backed p t a.env applied clean (opened_file w) c.0.1 c.1 app.permissions cmd
                a.alias,
          );
          download = λ cmd w _ c. (
            k.download cmd w tt c.0,
            closing-Backed _ (download_file-Backed p t a.env applied clean w c.0.1 c.1 cmd),
          );
          delete = λ cmd w _ c.
              (k.delete cmd w tt c.0, delete_file-Backed p t a.env applied clean w c.0.1 c.1 cmd);
          get = λ now cmd w c. rw (get_file-unchanged p a.env w now cmd) c;
          list = λ now cmd w c. rw (get_all_files-unchanged p a.env w now cmd) c;
          stat = λ user w c. rw (get_files_stat-unchanged p a.env w app.permissions user) c;
        }

  module _ (p : Platform) (env : Env) (w : World) (c : Sound p w)
      (early : env.now select_expired ≤ t) where
    -- A row that the round leaves was there before.
    before :
        (a : String) (f : File) (rows : List File)
        → Aged p env w c.0.0 c.0.1 a rows
        → row_at p a rows ≡ some f
        → row_at p a w.rows ≡ some f
    before a f rows (inl e) h = sym e ∙ h
    before a f rows (inr (gone, _)) h = cc

    round-Backed : Backed p t (round p env w).1
    round-Backed a f h later =
        let old = before a f _ (round-Aged p env w c.0.0 c.0.1 a).2 h in
        let kept =
          round-keeps_live p env w c.0.0 c.0.1 f.alias f (row_at-own p a w.rows f old).0
            (ground arith) in
        rw kept.1 (c.1 a f old later)

  pub Step-Sound :
      (app : App) (d : ltb_ℤ (pos 0) app.service.max_downloads ≡ true) {s u : Server}
      → Step t app s u
      → Sound app.platform s.world
      → Sound app.platform u.world
  Step-Sound app d (request a route s applied clean) c =
      serve-Keeps Positive Any (Sound app.platform) app (form-Positive app.service d) a
        (Keeps-Sound app a applied clean) s route (Suits-Any s.world route) c
  Step-Sound app d (tick env s early) c =
      let r = round-Aged app.platform env s.world c.0.0 c.0.1 "" in
      ((r.0, r.1), round-Backed app.platform env s.world c early)

-- Where the configured number of downloads is positive: a server that starts with a valid table, no
-- transaction open and a file in storage behind each row that does not expire before `t` is in such
-- a state again after any requests and rounds, whatever else fails in them, as long as the commits of
-- the requests are applied, their os.RemoveAll calls do not fail, and the rounds look no later than at
-- `t`. In a round, any call may fail, and an os.RemoveAll that breaks off may leave any of the folder's
-- files. The file has the base of the row's name and stands in the folder of the row's alias.
pub Reaches-Backed :
    (t : ℕ) (app : App) (s u : Server)
    → ltb_ℤ (pos 0) app.service.max_downloads ≡ true
    → Sound t app.platform s.world
    → Star (Step t app) s u
    → Sound t app.platform u.world
Reaches-Backed t app s u d c start = c
Reaches-Backed t app s u d c (step r e) = Step-Sound t app d e (Reaches-Backed t app s _ d c r)

-- In every state that a server of Reaches-Backed comes to, from a start as there: where a row of the
-- table expires at `t` or later, a download by its alias returns a file of the alias's folder, if no
-- call of the download fails, each looks before the row expires, and the password passes.
pub reached-Returns :
    (t : ℕ) (app : App) (s u : Server) (f : File) (env : Env) (password : String)
    → ltb_ℤ (pos 0) app.service.max_downloads ≡ true
    → Sound t app.platform s.world
    → Star (Step t app) s u
    → row_at app.platform f.alias u.world.rows ≡ some f
    → t ≤ f.expires_at
    → ((c : Call) → env.fault c ≡ none)
    → ((c : Call) → env.now c < f.expires_at)
    → check_password app.platform f password ≡ ok tt
    → Returns
        (λ o _. (more : List Stored) × (entries f.alias u.world.folders ≡ some (o.entry ∷ more)))
        (download_file app.platform (record { alias = f.alias; password = password }) env u.world)
reached-Returns t app s u f env password d c reached here later calm live allowed =
    let v = Reaches-Backed t app s u d c reached in
    backed-Returns app.platform env u.world f password calm v.0.1 here (v.1 f.alias f here later)
      live allowed
