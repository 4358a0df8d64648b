-- ===== src/Identity/Tests.antt =====
-- Tokens and permissions at concrete inputs. The hash is the text itself.
use smart_procurement_backen.Prelude.{◌≡◌, refl, String, true, none, some, [], ◌∷◌}
use smart_procurement_backen.Errors.{ok, err, permission_denied}
use smart_procurement_backen.Models.Identity.{User, RefreshToken}
use smart_procurement_backen.Session.{Session}
use smart_procurement_backen.Session.Sample.{empty_db, session_on}
use smart_procurement_backen.Identity.{
  get_current_user, claimed_user, subject_user, get_user, with_permissions, effective_permissions,
  require,
}
use smart_procurement_backen.Identity.Tokens.{
  Security, mismatch, decode_access_token, consume_refresh_token, consume_found, find_token, rotate,
  issue_refresh_token,
}
use smart_procurement_backen.Identity.Rotation.{consume_refresh_token-once}
use smart_procurement_backen.Identity.Access.{Allows, authorize, authorize-Allows}

abbrev same : String → String
same s = s

-- Every token reads as one of the user 7.
abbrev toy : Security
toy = record {
  hash = same;
  verify = λ hashed text. mismatch;
  encode = λ c. "t";
  decode = λ at token.
      some (record { sub = some 7; perms = []; iat = none; exp = none; typ = some "access" });
  jwt_access_ttl_seconds = 300;
  jwt_refresh_ttl_seconds = 600;
}

abbrev old_token : RefreshToken
old_token = record {
  id = 50;
  user_id = 7;
  token_hash = "old";
  expires_at = 5000;
  revoked_at = none;
}

abbrev buyer : User
buyer = record {
  id = 7;
  enterprise_id = 9;
  email = "b@example.com";
  full_name = "B";
  password_hash = "x";
  is_active = true;
}

abbrev start : Session
start = session_on (record empty_db {
  users = buyer ∷ [];
  roles = record { id = 2; enterprise_id = 9; key = "buyer"; name = "Buyer" } ∷ [];
  permissions = record { id = 3; key = "domain.read"; description = "" } ∷ [];
  role_permissions = record { role_id = 2; permission_id = 3 } ∷ [];
  user_roles = record { user_id = 7; role_id = 2 } ∷ [];
  refresh_tokens = old_token ∷ [];
})

rotated : (consume_refresh_token toy "old" "new" start).0 ≡ ok (some (7, "new"))
unfolding consume_refresh_token find_token consume_found rotate issue_refresh_token
rotated = refl

consume_refresh_token-once_example :
    let s' = (consume_refresh_token toy "old" "new" start).1 in
    consume_refresh_token toy "old" "again" s' ≡ (ok none, s')
consume_refresh_token-once_example =
    consume_refresh_token-once toy "old" "new" "again" start 7 "new" refl rotated

authorize-Allows_example :
    Allows toy same
      (some ("bearer", "t"))
      "domain.read"
      start
      (authorize toy same (some ("bearer", "t")) "domain.read" start)
authorize-Allows_example = authorize-Allows toy same (some ("bearer", "t")) "domain.read" start

passed :
    (authorize toy same (some ("bearer", "t")) "domain.read" start).0
    ≡ ok (record { id = 7; enterprise_id = 9; permissions = "domain.read" ∷ [] })
unfolding get_current_user decode_access_token claimed_user subject_user get_user with_permissions
    effective_permissions require
passed = refl

denied : (authorize toy same (some ("bearer", "t")) "user.manage" start).0 ≡ err permission_denied
unfolding get_current_user decode_access_token claimed_user subject_user get_user with_permissions
    effective_permissions require
denied = refl
