-- ===== src/Http/Access.antt =====
-- Who can change the state: what a request needs for the use case behind its route to run.
use expire_share_api.Prelude.{Option, some, ◌≡◌, ◌⊎◌, inl, inr, refl}
use expire_share_api.World.{World, ok}
use expire_share_api.Files.{download_file}
use expire_share_api.Http.Text.{extract_ip, extract_bearer_token}
use expire_share_api.Http.Reply.{UserClaims, Handler}
use expire_share_api.Http.FileHandlers.{
  upload_handler, download_handler, delete_handler, get_handler, get_all_handler, stat_handler,
}
use expire_share_api.Http.AuthClient.{Validated}
use expire_share_api.Http.Middlewares.{Server, rate_limiter, admin_user_context}
use expire_share_api.Http.Leaves.{
  Leaves, claims_of, on_world-Leaves, auth-Leaves, admin_auth-Leaves, limited-Leaves,
}
use expire_share_api.Http.Routes.{
  App, Arrival, Route, serve, on_world, user_route, admin_route, file_service, get_download,
  post_upload, get_files, get_stat, get_info, delete_info, admin_files, admin_stat, admin_get,
  admin_delete,
}

module _ (app : App) (a : Arrival) (s : Server) where
  -- The request bears the administrator's secret.
  abbrev pub BearsSecret : Type 0
  BearsSecret = app.decode (extract_bearer_token a.authorization) ≡ some app.secret

  -- The handler ran for the owner of a valid access token.
  abbrev pub RanAs : (Option UserClaims → Handler) → World → Type 0
  RanAs h w =
      (v : Validated) × (app.validate (extract_bearer_token a.authorization) ≡ ok v)
      × (w ≡ (h (some (claims_of v)) a.env s.world).1)

  -- The use case that may have run, and for whom.
  abbrev pub Ran : Route → World → Type 0
  Ran (get_download alias password) w =
      w
      ≡ (download_handler (download_file app.platform) app.type_of a.copied alias password a.env
          s.world).1
  Ran (post_upload form) w =
      RanAs (λ k. upload_handler (file_service app a) app.parse_duration app.service k form) w
  Ran (get_files page limit) w = RanAs (λ k. get_all_handler (file_service app a) k page limit) w
  Ran get_stat w = RanAs (λ k. stat_handler (file_service app a) k) w
  Ran (get_info alias) w = RanAs (λ k. get_handler (file_service app a) k alias) w
  Ran (delete_info alias) w = RanAs (λ k. delete_handler (file_service app a) k alias) w
  Ran (admin_files id page limit) w = BearsSecret
  Ran (admin_stat id) w = BearsSecret
  Ran (admin_get alias) w = BearsSecret
  Ran (admin_delete alias) w = BearsSecret

  user_route-Ran :
      (h : Option UserClaims → Handler)
      → Leaves (λ w. (w ≡ s.world) ⊎ RanAs h w) (user_route app a h s)
  user_route-Ran h =
      auth-Leaves (λ w. (w ≡ s.world) ⊎ RanAs h w) app.validate a.authorization
        (λ k. on_world (h (some k)) a.env) s (inl refl)
        (λ v e.
          on_world-Leaves (λ w. (w ≡ s.world) ⊎ RanAs h w) (h (some (claims_of v))) a.env s
            (inr (v, e, refl)))

  admin_route-Ran :
      (h : Handler)
      → Leaves (λ w. (w ≡ s.world) ⊎ BearsSecret) (admin_route app a (on_world h a.env) s)
  admin_route-Ran h =
      admin_auth-Leaves (λ w. (w ≡ s.world) ⊎ BearsSecret) app.admin_limit a.asked app.decode
        app.secret a.remote_addr a.authorization (on_world h a.env) s (inl refl)
        (λ m e.
          on_world-Leaves (λ w. (w ≡ s.world) ⊎ BearsSecret) h a.env (record s { counters = m })
            (inr e))

  -- A request leaves the rows, the folders, the transaction and the open handles as they are, unless
  -- it is a download; or its access token is valid, and the state is what the handler of its route
  -- leaves for the owner of the token; or it is a request of an administrator's route that bears the
  -- secret.
  pub serve-Ran : (route : Route) → Leaves (λ w. (w ≡ s.world) ⊎ Ran route w) (serve app a route s)
  unfolding serve rate_limiter
  serve-Ran (get_download alias password) =
      let h = download_handler (download_file app.platform) app.type_of a.copied alias password in
      limited-Leaves (λ w. (w ≡ s.world) ⊎ (w ≡ (h a.env s.world).1)) app.files_limit a.asked
        (extract_ip a.remote_addr) (on_world h a.env) s (inl refl)
        (λ m.
          on_world-Leaves (λ w. (w ≡ s.world) ⊎ (w ≡ (h a.env s.world).1)) h a.env
            (record s { counters = m }) (inr refl))
  serve-Ran (post_upload form) =
      user_route-Ran λ k. upload_handler (file_service app a) app.parse_duration app.service k form
  serve-Ran (get_files page limit) =
      user_route-Ran λ k. get_all_handler (file_service app a) k page limit
  serve-Ran get_stat = user_route-Ran λ k. stat_handler (file_service app a) k
  serve-Ran (get_info alias) = user_route-Ran λ k. get_handler (file_service app a) k alias
  serve-Ran (delete_info alias) = user_route-Ran λ k. delete_handler (file_service app a) k alias
  serve-Ran (admin_files id page limit) =
      admin_route-Ran
        (get_all_handler (file_service app a) (some (admin_user_context id)) page limit)
  serve-Ran (admin_stat id) =
      admin_route-Ran (stat_handler (file_service app a) (some (admin_user_context id)))
  serve-Ran (admin_get alias) =
      admin_route-Ran (get_handler (file_service app a) (some (admin_user_context "")) alias)
  serve-Ran (admin_delete alias) =
      admin_route-Ran (delete_handler (file_service app a) (some (admin_user_context "")) alias)
