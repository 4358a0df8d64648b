-- ===== src/Identity.antt =====
-- src/app/identity: permissions (service.py) and the checks of a request (deps.py), whose tokens are
-- those of Identity/Tokens (security.py). The lower case of a text is an argument.
pub mod Tokens
pub mod Rotation
pub mod Access
mod Tests
use smart_procurement_backen.Prelude.{
  sorted_texts, ℕ, ◌+◌, String, Bool, true, false, not, ◌&&◌, Option, none, some, List, [], ◌∷◌,
  ◌++◌, map, if◌then◌else◌, ◌==◌, leb, str_eq, is_none, any,
}
use smart_procurement_backen.Errors.{Error, app_error, permission_denied, key_error}
use smart_procurement_backen.Table.{select, scalar_one_or_none, update}
use smart_procurement_backen.Models.Basic.{RowId, Time}
use smart_procurement_backen.Models.Identity.{
  User, Role, Permission, RolePermission, UserRole, RefreshToken,
}
use smart_procurement_backen.Session.{
  Db, Session, Exec, pure, raise, gets, lift, ◌>>=◌, ◌>>◌, modify, now, uuid4,
}
use smart_procurement_backen.Identity.Tokens.{Claims, Security, decode_access_token}

-- The joins of `effective_permissions`, from the permission to the user.
abbrev pub links_user : RowId → RowId → UserRole → Bool
links_user user_id role_id ur = ur.role_id == role_id && ur.user_id == user_id

abbrev pub links_role : Db → RowId → RowId → Role → Bool
links_role db user_id role_id r = r.id == role_id && any (links_user user_id r.id) db.user_roles

abbrev pub links_permission : Db → RowId → RowId → RolePermission → Bool
links_permission db user_id permission_id rp =
    rp.permission_id == permission_id && any (links_role db user_id rp.role_id) db.roles

abbrev pub is_granted : Db → RowId → Permission → Bool
is_granted db user_id p = any (links_permission db user_id p.id) db.role_permissions

-- The distinct keys, sorted.
unfoldable pub effective_permissions : RowId → Exec (List String)
effective_permissions user_id = gets (λ db.
    sorted_texts (map (λ (p : Permission). p.key) (select (is_granted db user_id) db.permissions)))

abbrev pub has_user_id : RowId → User → Bool
has_user_id id u = u.id == id

unfoldable pub get_user : RowId → Exec (Option User)
get_user user_id s = lift (scalar_one_or_none (select (has_user_id user_id) s.users)) s

pub record CurrentUser : Type 0 where
  pub id : RowId
  pub enterprise_id : RowId
  pub permissions : List String

-- `permission in user.permissions`
abbrev pub has_permission : String → CurrentUser → Bool
has_permission permission user = any (λ k. str_eq k permission) user.permissions

abbrev pub unauthorized : Error
unauthorized = app_error "unauthorized" 401

abbrev pub is_access : Option String → Bool
is_access none = false
is_access (some t) = str_eq t "access"

unfoldable pub with_permissions : Option User → Exec CurrentUser
with_permissions none = raise unauthorized
with_permissions (some u) =
    if u.is_active
    then (do
      perms ← effective_permissions u.id
      pure (record { id = u.id; enterprise_id = u.enterprise_id; permissions = perms }))
    else raise unauthorized

-- A `sub` that is missing or no uuid raises an exception of Python.
unfoldable pub subject_user : Option RowId → Exec CurrentUser
subject_user none = raise key_error
subject_user (some user_id) = get_user user_id >>= with_permissions

unfoldable pub claimed_user : Option Claims → Exec CurrentUser
claimed_user none = raise unauthorized
claimed_user (some c) = if is_access c.typ then subject_user c.sub else raise unauthorized

-- The scheme and the text of the Authorization header.
unfoldable pub get_current_user :
    Security → (String → String) → Option (String × String) → Exec CurrentUser
get_current_user sec lower none = raise unauthorized
get_current_user sec lower (some (scheme, token)) =
    if str_eq (lower scheme) "bearer"
    then decode_access_token sec token >>= claimed_user
    else raise unauthorized

-- The dependency that `require(permission)` makes.
unfoldable pub require : String → CurrentUser → Exec CurrentUser
require permission user =
    if has_permission permission user then pure user else raise permission_denied
