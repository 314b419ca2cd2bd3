-- ===== src/Http/Handles.antt =====
-- The handles of files: a request gives back the ones that it opens.
use expire_share_api.Prelude.{ℕ, ◌+◌, none, ◌≡◌, refl, ◌∙◌, ap, arith, inl, inr}
use expire_share_api.World.{World, Env, Result, ok, err, entry_info, opened_file}
use expire_share_api.World.Post.{Post, Post-mono}
use expire_share_api.Storage.{Opened}
use expire_share_api.Files.Consistent.{
  Post-state, get_file-unchanged, get_all_files-unchanged, get_files_stat-unchanged,
}
use expire_share_api.Files.Upload.{upload_file-Post}
use expire_share_api.Files.Download.{download_file-Post}
use expire_share_api.Files.Delete.{delete_file-Post}
use expire_share_api.Worker.{round}
use expire_share_api.Worker.Round.{round-Rounds}
use expire_share_api.Http.FileHandlers.{after_download}
use expire_share_api.Http.Middlewares.{Server}
use expire_share_api.Http.Routes.{App, Arrival, Route, serve}
use expire_share_api.Http.Serving.{Keeps, Any, Suits-Any, serve-Keeps}

-- No transaction is open, and `n` handles are.
abbrev pub Balanced : ℕ → World → Type 0
Balanced n w = (w.tx ≡ none) × (w.open_files ≡ n)

module _ (n : ℕ) (app : App) (a : Arrival) where
  closing-Balanced :
      (x : Result Opened × World)
      → Post (λ _ u. Balanced (n + 1) u) (λ _ u. Balanced n u) x
      → Balanced n (after_download app.type_of a.copied x).1
  closing-Balanced (ok o, u) h = (h.holds.0, omega (arith, h.holds.1))
  closing-Balanced (err e, u) h = h.holds

  Keeps-Balanced : a.env.fault entry_info ≡ none → Keeps (λ _. Unit) Any (Balanced n) app a
  Keeps-Balanced told = record {
    upload = λ cmd w d c.
        let b = Post-state (Balanced (n + 1)) _ (
          Post-mono _ (λ _ x u. (u.1.closed, u.1.handles ∙ ap (λ k. k + 1) c.1))
            (λ _ x f. (f.1, f.0.handles ∙ ap (λ k. k + 1) c.1))
            (upload_file-Post app.platform app.permissions cmd a.alias a.env (opened_file w)
              c.0)) in
        (b.0, omega (arith, b.1));
    download = λ cmd w _ c. closing-Balanced _ (
        Post-mono _ (λ _ x d. rw d.state (refl, ap (λ k. k + 1) c.1))
          (λ _ x f.
            (f.closed, elim f.handles [ inl e ↦ e ∙ c.1 | inr (_, leak) ↦ absurd (leak told) ]))
          (download_file-Post app.platform cmd a.env w c.0));
    delete = λ cmd w _ c. Post-state (Balanced n) _ (
        Post-mono _ (λ _ x d. rw d.state (refl, c.1)) (λ _ x f. (f.1, f.0.handles ∙ c.1))
          (delete_file-Post app.platform cmd a.env w c.0));
    get = λ now cmd w c. rw (get_file-unchanged app.platform a.env w now cmd) c;
    list = λ now cmd w c. rw (get_all_files-unchanged app.platform a.env w now cmd) c;
    stat = λ user w c. rw (get_files_stat-unchanged app.platform a.env w app.permissions user) c;
  }

-- From a state with no transaction open:
-- whatever else fails, a request on files in which the `Info` of the opened file does not fail
-- leaves as many handles open as there were, and so does a round of the worker. No transaction stays
-- open.
pub handles_kept :
    (app : App) (a : Arrival) (s : Server) (route : Route) (env : Env)
    → a.env.fault entry_info ≡ none
    → s.world.tx ≡ none
    → Balanced s.world.open_files (serve app a route s).1.world
      × Balanced s.world.open_files (round app.platform env s.world).1
handles_kept app a s route env told idle =
    let r = round-Rounds app.platform env s.world idle in
    (
      serve-Keeps (λ _. Unit) Any (Balanced s.world.open_files) app (λ _ _ _. tt) a
          (Keeps-Balanced _ app a told) s route (Suits-Any s.world route) (idle, refl),
      (r.closed, r.handles),
    )
