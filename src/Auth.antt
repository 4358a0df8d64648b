-- ===== src/Auth.antt =====
-- src/app/api/routers/auth.py with identity/auth_provider.py: signing in, exchanging the refresh token,
-- and signing out, with the tokens of Identity/Tokens. The random text of a refresh token is an argument;
-- the cookie is what the call returns, and the commit ends the request.
pub mod Current
pub mod SignIn
mod Tests
use smart_procurement_backen.Prelude.{
  String, Bool, true, false, ◌&&◌, Option, none, some, List, [], ◌∷◌, ℕ, map, if◌then◌else◌, ◌==◌,
  str_eq, any, ordered_texts,
}
use smart_procurement_backen.Errors.{Error, app_error, assertion_error}
use smart_procurement_backen.Table.{select, scalar_one_or_none}
use smart_procurement_backen.Models.Basic.{RowId, Time}
use smart_procurement_backen.Models.Enterprise.{Enterprise}
use smart_procurement_backen.Models.Identity.{User, Role}
use smart_procurement_backen.Session.{Db, Exec, pure, raise, gets, lift, or_raise, ◌>>=◌, ◌>>◌, now}
use smart_procurement_backen.Pagination.{is_empty}
use smart_procurement_backen.Identity.{
  links_user, effective_permissions, get_user, CurrentUser, unauthorized,
}
use smart_procurement_backen.Identity.Tokens.{
  Security, verify_password, issue_access_token, issue_refresh_token, consume_refresh_token,
  revoke_refresh_token,
}

-- get_active_enterprise_id of src/app/identity/deps.py
unfoldable pub only_enterprise : List Enterprise → Exec RowId
only_enterprise [] = raise (app_error "config_error" 500)
only_enterprise (e ∷ []) = pure e.id
only_enterprise (e ∷ e' ∷ rows) = raise (app_error "config_error" 500)

unfoldable pub get_active_enterprise_id : Exec RowId
get_active_enterprise_id s = only_enterprise s.enterprises s

abbrev pub has_email : RowId → String → User → Bool
has_email enterprise_id email u = u.enterprise_id == enterprise_id && str_eq u.email email

unfoldable pub get_user_by_email : RowId → String → Exec (Option User)
get_user_by_email enterprise_id email s =
    lift (scalar_one_or_none (select (has_email enterprise_id email) s.users)) s

abbrev pub has_role : Db → RowId → Role → Bool
has_role db user_id r = any (links_user user_id r.id) db.user_roles

unfoldable pub role_keys : RowId → Exec (List String)
role_keys user_id =
    gets (λ db. ordered_texts (map (λ (r : Role). r.key) (select (has_role db user_id) db.roles)))

-- MeOut
pub record Me : Type 0 where
  pub row : User
  pub roles : List String
  pub permissions : List String

unfoldable pub me : CurrentUser → Exec Me
me user = do
  found ← get_user user.id
  row ← or_raise assertion_error found
  roles ← role_keys user.id
  pure (record { row = row; roles = roles; permissions = user.permissions })

-- What follows the check of the password.
abbrev pub admitted : User → Bool → Option User
admitted u true = some u
admitted u false = none

module _ (sec : Security) where
  abbrev pub authenticated : String → Option User → Exec (Option User)
  authenticated password none = pure none
  authenticated password (some u) =
      if u.is_active
      then (do
        matched ← lift (verify_password sec password u.password_hash)
        pure (admitted u matched))
      else pure none

  -- LocalAuthProvider.authenticate
  unfoldable pub authenticate : RowId → String → String → Exec (Option User)
  authenticate enterprise_id email password = do
    found ← get_user_by_email enterprise_id email
    authenticated password found

  -- What follows the check of the password: the access token, and the refresh token of the cookie.
  unfoldable pub sign_in : String → Option User → Exec (String × String)
  sign_in raw none = raise unauthorized
  sign_in raw (some u) = do
    permissions ← effective_permissions u.id
    access ← issue_access_token sec u.id permissions
    refresh ← issue_refresh_token sec u.id raw
    pure (access, refresh)

  unfoldable pub login : String → String → String → Exec (String × String)
  login email password raw = do
    enterprise_id ← get_active_enterprise_id
    authed ← authenticate enterprise_id email password
    sign_in raw authed

  unfoldable pub exchanged : Option (RowId × String) → Exec (String × String)
  exchanged none = raise unauthorized
  exchanged (some (user_id, new_raw)) = do
    permissions ← effective_permissions user_id
    access ← issue_access_token sec user_id permissions
    pure (access, new_raw)

  -- The cookie, if there is one, and the random text of the new token.
  unfoldable pub refresh : Option String → String → Exec (String × String)
  refresh none new_raw = raise unauthorized
  refresh (some raw) new_raw =
      if is_empty raw
      then raise unauthorized
      else consume_refresh_token sec raw new_raw >>= exchanged

  unfoldable pub logout : Option String → Exec (Unit {0})
  logout none = pure tt
  logout (some raw) = if is_empty raw then pure tt else revoke_refresh_token sec raw
