-- ===== src/Identity/Tokens.antt =====
-- Password checks, access tokens and refresh tokens of src/app/identity/security.py.
use smart_procurement_backen.Prelude.{
  true, false, List, ℕ, ◌+◌, String, Bool, Option, none, some, [], ◌∷◌, ◌++◌, if◌then◌else◌, ◌==◌,
  leb, str_eq, is_none,
}
use smart_procurement_backen.Table.{select, scalar_one_or_none, update}
use smart_procurement_backen.Models.Basic.{RowId, Time}
use smart_procurement_backen.Models.Identity.{RefreshToken}
use smart_procurement_backen.Errors.{Error, Result, ok, err}
use smart_procurement_backen.Session.{Db, Exec, pure, lift, ◌>>=◌, ◌>>◌, modify, now, uuid4}

-- The payload of an access token; `sub` is the uuid that its text spells, if it does.
pub record Claims : Type 0 where
  pub sub : Option RowId
  pub perms : List String
  pub iat : Option Time
  pub exp : Option Time
  pub typ : Option String

-- How Argon2's `verify` ends: with VerifyMismatchError, or with another exception.
pub data Verdict : Type 0 where
  verified mismatch : Verdict
  verify_error : Error → Verdict

-- What the code takes from outside: SHA-256, Argon2's `verify` of a hash and a text, `jwt.encode` and,
-- at a time, `jwt.decode` with the secret of the settings, and the two lifetimes of the settings.
pub record Security : Type 0 where
  pub hash : String → String
  pub verify : String → String → Verdict
  pub encode : Claims → String
  pub decode : Time → String → Option Claims
  pub jwt_access_ttl_seconds : ℕ
  pub jwt_refresh_ttl_seconds : ℕ

abbrev pub verdict : Verdict → Result Bool
verdict verified = ok true
verdict mismatch = ok false
verdict (verify_error e) = err e

abbrev pub has_hash : String → RefreshToken → Bool
has_hash hash t = str_eq t.token_hash hash

abbrev pub has_token_id : RowId → RefreshToken → Bool
has_token_id id t = t.id == id

-- `row.revoked_at = at`
abbrev pub revoked : Time → RefreshToken → RefreshToken
revoked at t = record t { revoked_at = some at }

abbrev pub revoke_row : RowId → Time → Db → Db
revoke_row id at db = record db {
  refresh_tokens = update (has_token_id id) (revoked at) db.refresh_tokens;
}

module _ (sec : Security) where
  abbrev pub verify_password : String → String → Result Bool
  verify_password plaintext hashed = verdict (sec.verify hashed plaintext)

  -- The payload of issue_access_token; the times are whole seconds.
  abbrev pub access_claims : Time → RowId → List String → Claims
  access_claims at user_id permissions = record {
    sub = some user_id;
    perms = permissions;
    iat = some at;
    exp = some (at + sec.jwt_access_ttl_seconds);
    typ = some "access";
  }

  unfoldable pub issue_access_token : RowId → List String → Exec String
  issue_access_token user_id permissions = do
    at ← now
    pure (sec.encode (access_claims at user_id permissions))

  -- None for InvalidTokenError.
  unfoldable pub decode_access_token : String → Exec (Option Claims)
  decode_access_token token = do at ← now; pure (sec.decode at token)

  -- `raw` is what `secrets.token_urlsafe(48)` gave.
  unfoldable pub issue_refresh_token : RowId → String → Exec String
  issue_refresh_token user_id raw = do
    at ← now
    id ← uuid4
    let t : RefreshToken = record {
      id = id;
      user_id = user_id;
      token_hash = sec.hash raw;
      expires_at = at + sec.jwt_refresh_ttl_seconds;
      revoked_at = none;
    }
    modify (λ db. record db { refresh_tokens = db.refresh_tokens ++ (t ∷ []) })
    pure raw

  unfoldable pub find_token : String → Exec (Option RefreshToken)
  find_token raw s = lift (scalar_one_or_none (select (has_hash (sec.hash raw)) s.refresh_tokens)) s

  -- The row is neither revoked nor expired: it is revoked, and a new token is issued.
  unfoldable pub rotate : RefreshToken → String → Exec (Option (RowId × String))
  rotate t new_raw = do
    at ← now
    modify (revoke_row t.id at)
    issued ← issue_refresh_token t.user_id new_raw
    pure (some (t.user_id, issued))

  unfoldable pub consume_found : Option RefreshToken → String → Exec (Option (RowId × String))
  consume_found none new_raw = pure none
  consume_found (some t) new_raw =
      if is_none t.revoked_at
      then (do at ← now; if leb t.expires_at at then pure none else rotate t new_raw)
      else pure none

  unfoldable pub consume_refresh_token : String → String → Exec (Option (RowId × String))
  consume_refresh_token raw new_raw = find_token raw >>= λ t. consume_found t new_raw

  unfoldable pub revoke_found : Option RefreshToken → Exec (Unit {0})
  revoke_found none = pure tt
  revoke_found (some t) =
      if is_none t.revoked_at then (do at ← now; modify (revoke_row t.id at)) else pure tt

  unfoldable pub revoke_refresh_token : String → Exec (Unit {0})
  revoke_refresh_token raw = find_token raw >>= revoke_found
