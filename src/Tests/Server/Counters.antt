-- ===== src/Tests/Server/Counters.antt =====
-- The theorem on the counters, applied to a download and an upload.
use expire_share_api.Prelude.{start, step, refl, some, arith}
use expire_share_api.Http.Routes.{get_download, post_upload}
use expire_share_api.Http.System.{request}
use expire_share_api.Http.Counters.{Counted, Reaches-Counted}
use expire_share_api.Tests.{platform, world-IsValid}
use expire_share_api.Tests.Server.{app, arrival, server, form, downloaded, uploaded}

Reaches-Counted_example : Counted 10000 platform uploaded.world
Reaches-Counted_example =
    Reaches-Counted 10000 app server uploaded (omega arith) (refl, omega arith)
      ((refl, world-IsValid), ground arith)
      (step (step start (request arrival (get_download "Ab3dEf" "pw") server))
        (request arrival (post_upload (some form)) downloaded))
