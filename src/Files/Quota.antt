-- ===== src/Files/Quota.antt =====
-- The quota of a user after an upload.
use expire_share_api.Prelude.{
  eqb_ℤ-refl, ℕ, ◌+◌, ◌≤◌, ◌<◌, ◌^◌, List, [], ◌∷◌, ◌++◌, ◌≡◌, ◌⊎◌, none, true, false, String, ℤ,
  eqb_ℤ, arith,
}
use expire_share_api.Domain.{
  File, UploadFile, Permissions, FilesStat, role_admin, role_vip, role_user,
}
use expire_share_api.World.{World, Env, Platform, ok}
use expire_share_api.World.Post.{Post, Post-mono}
use expire_share_api.Repo.Transactions.{stat_of}
use expire_share_api.Files.{upload_file, check_upload_quote, has_role, add_lt_int64}
use expire_share_api.Files.Upload.{upload_file-Post, row_of, hash_of}

-- A file more of the user's.
pub stat_of-append :
    (user : ℤ) (rows : List File) (f : File)
    → eqb_ℤ f.user_id user ≡ true
    → ((stat_of user (rows ++ f ∷ [])).count ≡ (stat_of user rows).count + 1)
      × ((stat_of user (rows ++ f ∷ [])).size ≡ (stat_of user rows).size + f.size)
stat_of-append user [] f h = ground arith
stat_of-append user (g ∷ gs) f h = ground (arith, stat_of-append user gs f h)

add_lt_int64-lt : (a b c : ℕ) → a + b < 2 ^ 63 → c < 2 ^ 63 → add_lt_int64 a b c ≡ true → a + b < c
add_lt_int64-lt a b c h k t = ground arith

quote-bounds :
    (cfg : Permissions) (stat : FilesStat) (n : ℕ) (roles : List String)
    → stat.size + n < 2 ^ 63
    → cfg.max_files_size_for_user_in_bytes < 2 ^ 63
    → cfg.max_files_size_for_vip_in_bytes < 2 ^ 63
    → has_role roles role_admin ≡ false
    → check_upload_quote cfg stat n roles ≡ ok tt
    → (stat.count < cfg.max_uploaded_files)
      × (((has_role roles role_vip ≡ true) × (stat.size + n < cfg.max_files_size_for_vip_in_bytes))
          ⊎ ((has_role roles role_user ≡ true)
              × (stat.size + n < cfg.max_files_size_for_user_in_bytes)))
unfolding check_upload_quote
quote-bounds cfg stat n roles h u v a q = ground (
  arith,
  add_lt_int64-lt stat.size n cfg.max_files_size_for_vip_in_bytes h v,
  add_lt_int64-lt stat.size n cfg.max_files_size_for_user_in_bytes h u,
)

-- What the quota promises of the user's rows: at most the number allowed, and less than the size
-- allowed for one of the user's roles.
abbrev pub WithinQuota : Permissions → List String → FilesStat → Type 0
WithinQuota cfg roles stat =
    (stat.count ≤ cfg.max_uploaded_files)
    × (((has_role roles role_vip ≡ true) × (stat.size < cfg.max_files_size_for_vip_in_bytes))
        ⊎ ((has_role roles role_user ≡ true) × (stat.size < cfg.max_files_size_for_user_in_bytes)))

-- In a state with no transaction open, and where the sizes stay below 2 ^ 63 bytes: when an upload of
-- a user who is no admin returns, the user's rows are within the quota, the new one included. The
-- number is at most the number allowed, and the sizes together are less than the size allowed to
-- VIPs, if the user is one, or to users, if the user is one.
pub upload_file-WithinQuota :
    (p : Platform) (cfg : Permissions) (cmd : UploadFile) (alias : String) (env : Env) (w : World)
    → w.tx ≡ none
    → (stat_of cmd.user.user_id w.rows).size + cmd.filesize < 2 ^ 63
    → cfg.max_files_size_for_user_in_bytes < 2 ^ 63
    → cfg.max_files_size_for_vip_in_bytes < 2 ^ 63
    → has_role cmd.user.roles role_admin ≡ false
    → Post
        (λ _ w'. WithinQuota cfg cmd.user.roles (stat_of cmd.user.user_id w'.rows))
        (λ _ _. Unit)
        (upload_file p cfg cmd alias env w)
upload_file-WithinQuota p cfg cmd alias env w idle fits u v a =
    Post-mono _
      (λ _ w' q.
        let before =
          quote-bounds cfg (stat_of cmd.user.user_id w.rows) cmd.filesize cmd.user.roles fits u v a
            q.0 in
        let more =
          stat_of-append cmd.user.user_id w.rows
            (row_of p cmd alias env (hash_of p env cmd.password)) (eqb_ℤ-refl cmd.user.user_id) in
        rw q.1.rows (rw (more.0, more.1) (omega (arith, before.0), before.1)))
      (λ _ _ _. tt) (upload_file-Post p cfg cmd alias env w idle)
