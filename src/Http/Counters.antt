-- ===== src/Http/Counters.antt =====
-- The counters of the table: where they start, and what no request and no round drives them past.
use expire_share_api.Prelude.{
  start, step, ℕ, ◌≤◌, ℤ, pos, negsuc, pred_int16, Bool, true, false, Option, none, some, List, ◌≡◌,
  refl, arith, inl, inr, Option-cases,
}
use expire_share_api.Domain.{File, UploadFile, DownloadFile, AliasCommand}
use expire_share_api.World.{World, Env, Platform, Result, ok, err, opened_file}
use expire_share_api.Files.{upload_file, download_file, delete_file as erase}
use expire_share_api.World.Post.{Post, Post-mono}
use expire_share_api.Storage.{Opened}
use expire_share_api.Repo.Table.{IsValid, delete_live_of_valid}
use expire_share_api.Repo.Counts.{
  InRange, Counts, keep-Counts, append-Counts, set_downloads-Counts, find_row-InRange,
  without-Counts, pred_int16-InRange,
}
use expire_share_api.Files.Consistent.{
  Consistent, Post-state, get_file-unchanged, get_all_files-unchanged, get_files_stat-unchanged,
}
use expire_share_api.Files.Upload.{upload_file-Post}
use expire_share_api.Files.Download.{download_file-Post}
use expire_share_api.Files.Settled.{settled, lowered, counted, has_more, Gone, Settles}
use expire_share_api.Files.Delete.{delete_file-Post}
use expire_share_api.Worker.{round}
use expire_share_api.Worker.Round.{round-Rounds, batch}
use expire_share_api.Http.Text.{parse_int}
use expire_share_api.Http.FileHandlers.{
  after_download, form_downloads, bounded_downloads, parsed, ServiceConfig,
}
use expire_share_api.Http.Middlewares.{Server}
use expire_share_api.Http.Routes.{App, Arrival}
use expire_share_api.Http.Serving.{Keeps, Admits, Any, Suits-Any, serve-Keeps}
use expire_share_api.Http.System.{Step, request, tick, Reaches, Keeps-Consistent, Step-Consistent}

module _ (m : ℕ) where
  settled-Counts :
      (p : Platform) (cmd : DownloadFile) (env : Env) (b : Bool) (left : ℤ) (rows : List File)
      → IsValid p rows
      → Counts m rows
      → (b ≡ true → InRange m left)
      → Gone p cmd env b left rows
      → Counts m (settled p cmd env b left rows)
  settled-Counts p cmd env true left rows v c h g = set_downloads-Counts m _ left rows c (h refl)
  settled-Counts p cmd env false left rows v c h g =
      rw (delete_live_of_valid p cmd.alias left _ rows v g) (keep-Counts m _ rows c)

  lowered-Counts :
      (p : Platform) (cmd : DownloadFile) (env : Env) (rows : List File) (f : File)
      → IsValid p rows
      → Counts m rows
      → counted p cmd env rows ≡ some f
      → Gone p cmd env (has_more (pred_int16 f.downloads_left)) (pred_int16 f.downloads_left) rows
      → Counts m (
          settled p cmd env
            (has_more (pred_int16 f.downloads_left))
            (pred_int16 f.downloads_left)
            rows)
  lowered-Counts p cmd env rows f v c found g =
      let n = f.downloads_left in
      settled-Counts p cmd env (has_more (pred_int16 n)) (pred_int16 n) rows v c
        (λ more. pred_int16-InRange m n (find_row-InRange m _ rows f c found) more) g

  Settles-Counts :
      (p : Platform) (cmd : DownloadFile) (env : Env) (rows : List File)
      → IsValid p rows
      → Counts m rows
      → Settles p cmd env rows
      → Counts m (lowered p cmd env rows)
  Settles-Counts p cmd env rows v c s = elim (Option-cases (counted p cmd env rows)) [
    | inl e ↦ rw e c
    | inr (f, e) ↦ rw e (lowered-Counts p cmd env rows f v c e (rw e at s))
  ]

  -- The state between two steps of the server.
  abbrev pub Counted : Platform → World → Type 0
  Counted p w = Consistent p w × Counts m w.rows

  module _ (app : App) (a : Arrival) where
    abbrev p : Platform
    p = app.platform

    closing-Counts :
        (x : Result Opened × World)
        → Post (λ _ u. Counts m u.rows) (λ _ u. Counts m u.rows) x
        → Counts m (after_download app.type_of a.copied x).1.rows
    closing-Counts (ok o, u) h = h.holds
    closing-Counts (err e, u) h = h.holds

    download-Counts :
        (cmd : DownloadFile) (w : World)
        → Counted p w
        → Counts m (after_download app.type_of a.copied (download_file p cmd a.env w)).1.rows
    download-Counts cmd w c = closing-Counts _ (
        Post-mono _
          (λ _ x d. rw d.state (lowered-Counts p cmd a.env w.rows d.row c.0.1 c.1 d.found d.gone))
          (λ _ x f. elim f.rows [
            | inl e ↦ rw e c.1
            | inr (e, _, s) ↦ rw e (Settles-Counts p cmd a.env w.rows c.0.1 c.1 s)
          ])
          (download_file-Post p cmd a.env w c.0.0))

    abbrev Rowed : World → Type 0
    Rowed w = Counts m w.rows

    upload-Counts :
        (cmd : UploadFile) (w : World)
        → InRange m cmd.max_downloads
        → Counted p w
        → Rowed (upload_file p app.permissions cmd a.alias a.env w).1
    upload-Counts cmd w d c = Post-state Rowed _ (
        Post-mono _ (λ _ x u. rw u.1.rows (append-Counts m w.rows _ c.1 d))
          (λ _ x f. elim f.0.rows [
            | inl e ↦ rw e c.1
            | inr (e, _, _) ↦ rw e (append-Counts m w.rows _ c.1 d)
          ])
          (upload_file-Post p app.permissions cmd a.alias a.env w c.0.0))

    delete-Counts : (cmd : AliasCommand) (w : World) → Counted p w → Rowed (erase p cmd a.env w).1
    delete-Counts cmd w c = Post-state Rowed _ (
        Post-mono _ (λ _ x d. rw d.state (keep-Counts m _ w.rows c.1))
          (λ _ x f. elim f.0.rows [
            | inl e ↦ rw e c.1
            | inr (e, _, _) ↦ rw e (keep-Counts m _ w.rows c.1)
          ])
          (delete_file-Post p cmd a.env w c.0.0))

    Keeps-Counted : Keeps (InRange m) Any (Counted p) app a
    Keeps-Counted =
        let k = Keeps-Consistent app a in
        record {
          upload = λ cmd w d c. (k.upload cmd w d.0 c.0, upload-Counts cmd (opened_file w) d c);
          download = λ cmd w _ c. (k.download cmd w tt c.0, download-Counts cmd w c);
          delete = λ cmd w _ c. (k.delete cmd w tt c.0, delete-Counts cmd w c);
          get = λ now cmd w c. rw (get_file-unchanged p a.env w now cmd) c;
          list = λ now cmd w c. rw (get_all_files-unchanged p a.env w now cmd) c;
          stat = λ user w c. rw (get_files_stat-unchanged p a.env w app.permissions user) c;
        }

  bounded-InRange :
      10000 ≤ m → (o : Option ℤ) (n : ℤ) → bounded_downloads o ≡ parsed n → InRange m n
  bounded-InRange big none n h = ground arith
  bounded-InRange big (some (pos k)) n h = ground arith
  bounded-InRange big (some (negsuc k)) n h = ground arith

  form-InRange :
      (cfg : ServiceConfig) → 10000 ≤ m → InRange m cfg.max_downloads → Admits (InRange m) cfg
  unfolding form_downloads
  form-InRange cfg big d text n h = ground (arith, bounded-InRange big (parse_int 16 text) n)

  round-Counts :
      (p : Platform) (env : Env) (w : World) → Counted p w → Counts m (round p env w).1.rows
  round-Counts p env w c = elim (round-Rounds p env w c.0.0).rows [
    | inl e ↦ rw e c.1
    | inr e ↦ rw e (without-Counts m p (batch p env w) w.rows c.1)
  ]

  Step-Counted :
      (app : App)
      → 10000 ≤ m
      → InRange m app.service.max_downloads
      → {s t : Server} → Step app s t
      → Counted app.platform s.world
      → Counted app.platform t.world
  Step-Counted app big d (request a route s) c =
      serve-Keeps (InRange m) Any (Counted app.platform) app (form-InRange app.service big d) a
        (Keeps-Counted app a) s route (Suits-Any s.world route) c
  Step-Counted app big d (tick env s) c =
      (Step-Consistent app d.0 (tick env s) c.0, round-Counts app.platform env s.world c)

-- Where the configured number of downloads lies between 1 and `m`, and `m` is 10000 at least:
-- whatever requests a server serves and whatever rounds the worker makes, in any order and with any
-- failures, a server that starts with a valid table, no transaction open and between 1 and `m`
-- downloads left in every row is in such a state again after each of them.
pub Reaches-Counted :
    (m : ℕ) (app : App) (s t : Server)
    → 10000 ≤ m
    → InRange m app.service.max_downloads
    → Counted m app.platform s.world
    → Reaches app s t
    → Counted m app.platform t.world
Reaches-Counted m app s t big d c start = c
Reaches-Counted m app s u big d c (step r e) =
    Step-Counted m app big d e (Reaches-Counted m app s _ big d c r)
