-- ===== src/Files/Access.antt =====
-- internal/services/files/access.go: who may do what.
use expire_share_api.Prelude.{
  ℕ, ◌+◌, ◌%◌, ◌^◌, ◌||◌, ◌&&◌, Bool, true, false, not, String, List, [], ◌∷◌, ◌==◌, if◌then◌else◌,
  ltb, leb, ℤ, eqb_ℤ,
}
use expire_share_api.Domain.{
  File, FilesStat, Permissions, UserRole, role_user, role_vip, role_admin, sentinel, forbidden,
  upload_limit_exceeded, file_size_too_big, file_password_required, file_password_invalid,
}
use expire_share_api.World.{Platform, Result, ok, err, Done}

-- `a + b < c` on int64: the sum wraps, and a wrapped sum is negative, so it is below `c`.
abbrev pub add_lt_int64 : ℕ → ℕ → ℕ → Bool
add_lt_int64 a b c = ltb ((a + b + 2 ^ 63) % 2 ^ 64) (c + 2 ^ 63)

unfoldable pub has_role : List UserRole → UserRole → Bool
has_role [] role = false
has_role (r ∷ rs) role = if r == role then true else has_role rs role

unfoldable pub check_owner : File → ℤ → Result Done
check_owner f user = if eqb_ℤ f.user_id user then ok tt else err (sentinel forbidden)

unfoldable pub check_access : File → ℤ → List UserRole → Result Done
unfolding check_owner
check_access f user roles = if has_role roles role_admin then ok tt else check_owner f user

unfoldable pub check_upload_quote : Permissions → FilesStat → ℕ → List UserRole → Result Done
check_upload_quote cfg stat filesize roles =
    if has_role roles role_admin
    then ok tt
    else if leb cfg.max_uploaded_files stat.count
    then err (sentinel upload_limit_exceeded)
    else if has_role roles role_vip
        && add_lt_int64 stat.size filesize cfg.max_files_size_for_vip_in_bytes
    then ok tt
    else if has_role roles role_user
        && add_lt_int64 stat.size filesize cfg.max_files_size_for_user_in_bytes
    then ok tt
    else err (sentinel file_size_too_big)

unfoldable pub check_password : Platform → File → String → Result Done
check_password p f password =
    if not (f.password_hash == "") && password == ""
    then err (sentinel file_password_required)
    else if not (p.bcrypt_matches f.password_hash password) && not (f.password_hash == "")
    then err (sentinel file_password_invalid)
    else ok tt

-- userLimits
pub record UserLimits : Type 0 where
  pub max_uploaded_files : ℕ
  pub max_size : ℕ

pub get_user_limits : Permissions → List UserRole → UserLimits
get_user_limits cfg roles =
    if has_role roles role_admin || has_role roles role_vip
    then record {
      max_uploaded_files = cfg.max_uploaded_files;
      max_size = cfg.max_files_size_for_vip_in_bytes;
    }
    else record {
      max_uploaded_files = cfg.max_uploaded_files;
      max_size = cfg.max_files_size_for_user_in_bytes;
    }
