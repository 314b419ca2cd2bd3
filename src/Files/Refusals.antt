-- ===== src/Files/Refusals.antt =====
-- access.go, and what the use cases do for those whom it refuses.
use mathlib.Core.List.{Memᴰ}
use expire_share_api.Prelude.{
  eqb_ℤ_sound, eqb_ℤ-refl, ℕ, ℤ, some, none, List, [], ◌∷◌, true, false, ◌≡◌, ◌≢◌, ◌⊎◌, ◌↔◌, inl,
  inr, sym, ◌==◌, eq_iff, if◌then◌else◌, arith, Bool-cases,
}
use expire_share_api.Domain.{
  File, Cause, UserRole, DownloadFile, AliasCommand, role_admin, wrap, sentinel, forbidden,
  file_password_required, file_password_invalid,
}
use expire_share_api.World.{World, Env, Platform, Result, ok, err, select_file, ◌>>=◌}
use expire_share_api.Storage.{Opened}
use expire_share_api.Repo.{find_row, is_live}
use expire_share_api.Repo.Calm.{get_file_by_alias-found}
use expire_share_api.Files.{
  download_file, delete_file, get_file, check_access, check_owner, check_password, has_role,
}

has_role_sound : (roles : List UserRole) (r : UserRole) → has_role roles r ≡ true → Memᴰ r roles
unfolding has_role
has_role_sound [] r h = ground arith
has_role_sound (x ∷ xs) r h = elim (Bool-cases (x == r)) [
  | inl e ↦ Memᴰ.head (sym ((eq_iff x r).0 e))
  | inr e ↦ Memᴰ.tail (has_role_sound xs r (ground arith))
]

has_role_complete : {r : UserRole} {roles : List UserRole} → Memᴰ r roles → has_role roles r ≡ true
unfolding has_role
has_role_complete {r = r} (Memᴰ.head {x} e) = ground (arith, eq_iff x r)
has_role_complete {r = r} (Memᴰ.tail {x} m) =
    let below = has_role_complete m in ground (arith, eq_iff x r)

check_access_sound :
    (f : File) (user : ℤ) (roles : List UserRole)
    → check_access f user roles ≡ ok tt
    → (has_role roles role_admin ≡ true) ⊎ (f.user_id ≡ user)
unfolding check_access check_owner
check_access_sound f user roles h = ground (arith, eqb_ℤ_sound f.user_id user)

check_access_complete :
    (f : File) (user : ℤ) (roles : List UserRole)
    → (has_role roles role_admin ≡ true) ⊎ (f.user_id ≡ user)
    → check_access f user roles ≡ ok tt
unfolding check_access check_owner
check_access_complete f user roles h = ground (arith, eqb_ℤ-refl f.user_id, eqb_ℤ-refl user)

denied :
    (f : File) (user : ℤ) (roles : List UserRole)
    → f.user_id ≢ user
    → has_role roles role_admin ≡ false
    → check_access f user roles ≡ err (sentinel forbidden)
unfolding check_access check_owner
denied f user roles outsider no_admin = ground (arith, eqb_ℤ_sound f.user_id user)

module _ (p : Platform) (env : Env) (w : World) (f : File) where
  module _ (cmd : AliasCommand) where
    -- While the query of the row is answered: for an alias that has a live row, a caller who is not
    -- its owner and has not the role admin gets ErrForbidden from DeleteFile and from
    -- GetFileByAlias, and the state stays as it is.
    pub outsider-forbidden :
        (now : ℕ)
        → env.fault select_file ≡ none
        → find_row (is_live p (env.now select_file) cmd.alias) w.rows ≡ some f
        → f.user_id ≢ cmd.user.user_id
        → has_role cmd.user.roles role_admin ≡ false
        → (delete_file p cmd env w ≡ (
          err (wrap "services.files.Service.DeleteFile: access denied" (sentinel forbidden)),
          w,
        ))
          × (get_file p now cmd env w ≡ (
            err (wrap "services.file.Service.GetFileByAlias: access denied" (sentinel forbidden)),
            w,
          ))
    unfolding delete_file get_file ◌>>=◌
    outsider-forbidden now up seen outsider no_admin =
        let a = get_file_by_alias-found p env up w cmd.alias f seen in
        let b = denied f cmd.user.user_id cmd.user.roles outsider no_admin in
        (ground (arith, a, b), ground (arith, a, b))

  -- What DownloadFile answers to a password that does not open the file.
  abbrev pub password_refusal : Cause → Result Opened × World
  password_refusal c =
      (err (wrap "services.files.Service.DownloadFile: access denied" (sentinel c)), w)

  -- While the query of the row is answered: for an alias whose live row has a password, and a
  -- request with no password or with one that bcrypt does not match, DownloadFile fails with
  -- ErrFilePasswordRequired in the first case and ErrFilePasswordInvalid in the second, and the
  -- state stays as it is: no download is counted and no file is opened.
  pub wrong_password-refused :
      (cmd : DownloadFile)
      → env.fault select_file ≡ none
      → find_row (is_live p (env.now select_file) cmd.alias) w.rows ≡ some f
      → f.password_hash ≢ ""
      → (cmd.password ≡ "") ⊎ (p.bcrypt_matches f.password_hash cmd.password ≡ false)
      → download_file p cmd env w
        ≡ password_refusal
            (if cmd.password == "" then file_password_required else file_password_invalid)
  unfolding download_file check_password ◌>>=◌
  wrong_password-refused cmd up seen locked h =
      let a = get_file_by_alias-found p env up w cmd.alias f seen in
      ground (arith, a, eq_iff f.password_hash "", eq_iff cmd.password "")

-- The right to see and to delete a file: checkAccess returns nil exactly for a caller who owns the
-- file or has the role admin among the roles.
pub check_access_iff :
    (f : File) (user : ℤ) (roles : List UserRole)
    → (check_access f user roles ≡ ok tt) ↔ (Memᴰ role_admin roles ⊎ (f.user_id ≡ user))
check_access_iff f user roles = (
  λ h. elim (check_access_sound f user roles h) [
    | inl e ↦ inl (has_role_sound roles role_admin e)
    | inr e ↦ inr e
  ],
  λ h. elim h [
    | inl m ↦ check_access_complete f user roles (inl (has_role_complete m))
    | inr e ↦ check_access_complete f user roles (inr e)
  ],
)
