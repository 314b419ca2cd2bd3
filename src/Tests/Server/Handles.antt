-- ===== src/Tests/Server/Handles.antt =====
-- The theorem on open handles, applied to a download.
use expire_share_api.Prelude.{refl}
use expire_share_api.Worker.{round}
use expire_share_api.Http.Routes.{serve, get_download}
use expire_share_api.Http.Handles.{Balanced, handles_kept}
use expire_share_api.Tests.{platform, calm}
use expire_share_api.Tests.Server.{app, arrival, server}

handles_kept_example :
    Balanced 0 (serve app arrival (get_download "Ab3dEf" "pw") server).1.world
    × Balanced 0 (round platform calm server.world).1
handles_kept_example = handles_kept app arrival server (get_download "Ab3dEf" "pw") calm refl refl
