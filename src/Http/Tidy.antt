-- ===== src/Http/Tidy.antt =====
-- The folders of the storage over the requests and the rounds of a whole server: none is left behind
-- where no call fails and the callers spell an alias as its row does.
use expire_share_api.Prelude.{String, Star, start, step, true, none, ◌≡◌, pos, ltb_ℤ}
use expire_share_api.World.{World, Env, Platform, Result, ok, err, Call, opened_file}
use expire_share_api.Storage.{Opened}
use expire_share_api.Files.Consistent.{
  Consistent, get_file-unchanged, get_all_files-unchanged, get_files_stat-unchanged,
}
use expire_share_api.Files.Tidy.{AsWritten, Tidy}
use expire_share_api.Files.Tidy.Kept.{
  upload_file-Tidy, download_file-Tidy, delete_file-Tidy, round-Tidy,
}
use expire_share_api.Worker.{round}
use expire_share_api.Worker.Expiry.{round-Aged}
use expire_share_api.Http.FileHandlers.{after_download}
use expire_share_api.Http.Middlewares.{Server}
use expire_share_api.Http.Routes.{App, Arrival, Route, serve}
use expire_share_api.Http.Serving.{Keeps, Suits, serve-Keeps}
use expire_share_api.Http.System.{Positive, Keeps-Consistent, form-Positive}

-- The alias is written as the row has it that the database finds by it, if it finds one.
abbrev pub Written : Platform → String → World → Type 0
Written p alias w = AsWritten p w.rows alias

-- A step in which no call on the files, the table or the clock fails. A request to download or to
-- delete a file spells the alias as its row does.
pub data Step (app : App) : Server → Server → Type 0 where
  request :
      (a : Arrival) (route : Route) (s : Server)
      → ((c : Call) → a.env.fault c ≡ none)
      → Suits (Written app.platform) s.world route
      → Step app s (serve app a route s).1
  tick :
      (env : Env) (s : Server)
      → ((c : Call) → env.fault c ≡ none)
      → Step app s (record s { world = (round app.platform env s.world).1 })

-- A valid table, no transaction open, and a row for each folder.
abbrev pub Mirrored : Platform → World → Type 0
Mirrored p w = Consistent p w × Tidy p w

module _ (app : App) where
  closing-Tidy :
      (a : Arrival) (x : Result Opened × World)
      → Tidy app.platform x.1
      → Tidy app.platform (after_download app.type_of a.copied x).1
  closing-Tidy a (ok o, u) t = t
  closing-Tidy a (err e, u) t = t

  Keeps-Mirrored :
      (a : Arrival)
      → ((c : Call) → a.env.fault c ≡ none)
      → Keeps Positive (Written app.platform) (Mirrored app.platform) app a
  Keeps-Mirrored a calm =
      let p = app.platform in
      let k = Keeps-Consistent app a in
      record {
        upload = λ cmd w d c. (
          k.upload cmd w d c.0,
          upload_file-Tidy p a.env calm (opened_file w) c.0.1 c.1 app.permissions cmd a.alias,
        );
        download = λ cmd w h c. (
          k.download cmd w tt c.0,
          closing-Tidy a _ (download_file-Tidy p a.env calm w c.0.1 c.1 cmd h),
        );
        delete =
            λ cmd w h c. (k.delete cmd w tt c.0, delete_file-Tidy p a.env calm w c.0.1 c.1 cmd h);
        get = λ now cmd w c. rw (get_file-unchanged p a.env w now cmd) c;
        list = λ now cmd w c. rw (get_all_files-unchanged p a.env w now cmd) c;
        stat = λ user w c. rw (get_files_stat-unchanged p a.env w app.permissions user) c;
      }

  Step-Mirrored :
      ltb_ℤ (pos 0) app.service.max_downloads ≡ true
      → {s u : Server} → Step app s u
      → Mirrored app.platform s.world
      → Mirrored app.platform u.world
  Step-Mirrored d (request a route s calm h) c =
      serve-Keeps Positive (Written app.platform) (Mirrored app.platform) app
        (form-Positive app.service d) a (Keeps-Mirrored a calm) s route h c
  Step-Mirrored d (tick env s calm) c =
      let r = round-Aged app.platform env s.world c.0.0 c.0.1 "" in
      ((r.0, r.1), round-Tidy app.platform env calm s.world c.0.1 c.1)

-- Where the configured number of downloads is positive: a server that starts with a valid table, no
-- transaction open and no folder but those of the aliases of rows, letter by letter, is in such a
-- state again after any requests and rounds in which no call fails, as long as each request to
-- download or to delete a file writes the alias as the row has it that the database finds by it, if it
-- finds one. So nothing of a file stays in the storage when its row is gone, whatever spellings the
-- collation takes for the same.
pub Reaches-Mirrored :
    (app : App) (s u : Server)
    → ltb_ℤ (pos 0) app.service.max_downloads ≡ true
    → Mirrored app.platform s.world
    → Star (Step app) s u
    → Mirrored app.platform u.world
Reaches-Mirrored app s u d c start = c
Reaches-Mirrored app s u d c (step r e) = Step-Mirrored app d e (Reaches-Mirrored app s _ d c r)
