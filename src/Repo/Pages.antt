-- ===== src/Repo/Pages.antt =====
-- The reading operations: what they return, and that they change nothing.
use expire_share_api.Prelude.{ℕ, ◌<◌, ◌^◌, List, [], ◌≡◌, ◌⊎◌, arith, length, keep}
use expire_share_api.Domain.{File, GetAllFiles}
use expire_share_api.World.{World, Env, ◌>>=◌, count_files, page_files}
use expire_share_api.World.Post.{Post}
use expire_share_api.Repo.{get_files_by_user_id, query, query_page, page_of, is_owned, offset_of}

-- The total of the owner's live files, and the page of them that was asked for.
abbrev pub Listed : GetAllFiles → Env → World → List File → ℕ → Type 0
Listed cmd env w files total =
    (total ≡ length (keep (is_owned (env.now count_files) cmd.user_id) w.rows))
    × (((total ≡ 0) × (files ≡ []))
        ⊎ ((offset_of cmd < 2 ^ 63) × (files ≡ page_of cmd (env.now page_files) w.rows)))

pub get_files_by_user_id-Post :
    (cmd : GetAllFiles) (env : Env) (w : World)
    → Post
        (λ r w'. (w' ≡ w) × Listed cmd env w r.0 r.1)
        (λ _ w'. w' ≡ w)
        (get_files_by_user_id cmd env w)
unfolding get_files_by_user_id query query_page ◌>>=◌
get_files_by_user_id-Post cmd env w = record { holds = ground arith }
