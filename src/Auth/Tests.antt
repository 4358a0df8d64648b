-- ===== src/Auth/Tests.antt =====
-- Sign-ins at concrete inputs. The hash is the text itself, and a signed token is the id of a user in
-- strokes and the end of its lifetime in dots.
use smart_procurement_backen.Prelude.{
  ℕ, zero, suc, ◌+◌, ◌≡◌, refl, ap, ◌∙◌, String, true, false, Option, none, some, [], ◌∷◌, str_eq,
  arith, IsIn, length, ◌≤◌, ◌==◌, Bool-cases, inl, inr, if◌then◌else◌, ltb,
}
use smart_procurement_backen.Errors.{ok, err}
use smart_procurement_backen.Table.{select}
use smart_procurement_backen.Models.Basic.{RowId, Time}
use smart_procurement_backen.Models.Enterprise.{Enterprise}
use smart_procurement_backen.Models.Identity.{User}
use smart_procurement_backen.Session.{Session}
use smart_procurement_backen.Session.Sample.{empty_db, session_on}
use smart_procurement_backen.Identity.{
  has_user_id, unauthorized, effective_permissions, get_current_user, claimed_user,
}
use smart_procurement_backen.Identity.Tokens.{
  Claims, verified, mismatch, Security, issue_access_token, issue_refresh_token,
  decode_access_token,
}
use smart_procurement_backen.Auth.{
  login, get_active_enterprise_id, only_enterprise, authenticate, get_user_by_email, sign_in,
}
use smart_procurement_backen.Auth.SignIn.{Admits, login-Admits}
use smart_procurement_backen.Auth.Current.{Decodes, Expires, current_user, login-current}

abbrev plant : Enterprise
plant = record {
  id = 9;
  name = "Plant";
  base_currency = "USD";
  active_execution_adapter = "simulated";
  settings = [];
}

abbrev buyer : User
buyer = record {
  id = 7;
  enterprise_id = 9;
  email = "b@example.com";
  full_name = "B";
  password_hash = "secret";
  is_active = true;
}

abbrev start : Session
start = session_on (record empty_db {
  enterprises = plant ∷ [];
  users = buyer ∷ [];
  roles = record { id = 2; enterprise_id = 9; key = "buyer"; name = "Buyer" } ∷ [];
  permissions = record { id = 3; key = "domain.read"; description = "" } ∷ [];
  role_permissions = record { role_id = 2; permission_id = 3 } ∷ [];
  user_roles = record { user_id = 7; role_id = 2 } ∷ [];
})

abbrev same : String → String
same s = s

abbrev dots : ℕ → String
dots zero = ""
dots (suc n) = String.◌∷◌ "." (dots n)

abbrev strokes : ℕ → String → String
strokes zero s = s
strokes (suc n) s = String.◌∷◌ "|" (strokes n s)

abbrev count : String → String → ℕ
count x String.[] = 0
count x (String.◌∷◌ c s) =
    let rest = count x s in if str_eq (String.◌∷◌ c "") x then suc rest else rest

count-dots : (n : ℕ) → (count "|" (dots n) ≡ 0) × (count "." (dots n) ≡ n)
count-dots zero = (refl, refl)
count-dots (suc n) = ((count-dots n).0, ap suc (count-dots n).1)

count-strokes :
    (n : ℕ) (s : String)
    → (count "|" (strokes n s) ≡ n + count "|" s) × (count "." (strokes n s) ≡ count "." s)
count-strokes zero s = (omega arith, refl)
count-strokes (suc n) s = (omega (arith, (count-strokes n s).0), (count-strokes n s).1)

abbrev or_zero : Option ℕ → ℕ
or_zero none = 0
or_zero (some n) = n

abbrev token_of : RowId → Time → String
token_of user_id expires = strokes user_id (dots expires)

count-token_of :
    (u : RowId) (e : Time) → (count "|" (token_of u e) ≡ u) × (count "." (token_of u e) ≡ e)
count-token_of u e = (
  omega (arith, (count-strokes u (dots e)).0, (count-dots e).0),
  (count-strokes u (dots e)).1 ∙ (count-dots e).1,
)

abbrev payload : RowId → Time → Claims
payload user_id expires = record {
  sub = some user_id;
  perms = [];
  iat = none;
  exp = some expires;
  typ = some "access";
}

abbrev toy : Security
toy = record {
  hash = λ raw. raw;
  verify = λ hashed text. if str_eq text hashed then verified else mismatch;
  encode = λ c. token_of (or_zero c.sub) (or_zero c.exp);
  decode = λ at token.
      if ltb at (count "." token) then some (payload (count "|" token) (count "." token)) else none;
  jwt_access_ttl_seconds = 5;
  jwt_refresh_ttl_seconds = 600;
}

toy-Decodes : Decodes toy same
toy-Decodes c u issued e at subject access since until since_ before =
    let (user, expires) = count-token_of u e in
    let live : ltb at e ≡ true = ground arith in
    (payload u e, rw (subject, until, user, expires, live) refl, refl, refl)

toy-Expires : Expires toy same
toy-Expires c e at until over =
    let expires = (count-token_of (or_zero c.sub) e).1 in
    let late : ltb at e ≡ false = ground arith in rw (until, expires, late) refl

-- The clock starts at 0.
abbrev early : Session
early = record start { clock = λ n. n }

unique : (id : RowId) → length (select (has_user_id id) early.users) ≤ 1
unique id = elim (Bool-cases (7 == id)) [ inl e ↦ rw e (omega arith) | inr e ↦ rw e (omega arith) ]

wrong_password : (login toy "b@example.com" "guess" "r" early).0 ≡ err unauthorized
unfolding login get_active_enterprise_id only_enterprise authenticate get_user_by_email sign_in
wrong_password = refl

login-Admits_example :
    Admits toy "b@example.com" "secret" "r" early (login toy "b@example.com" "secret" "r" early)
login-Admits_example = login-Admits toy "b@example.com" "secret" "r" early

abbrev signed : Session
signed = (login toy "b@example.com" "secret" "r" early).1

login_now : login toy "b@example.com" "secret" "r" early ≡ (ok ("|||||||.....", "r"), signed)
unfolding login get_active_enterprise_id only_enterprise authenticate get_user_by_email sign_in
    effective_permissions issue_access_token issue_refresh_token
login_now = refl

-- Two readings of the clock after the sign-in began.
abbrev soon : Session
soon = record early { db = signed.db; ticks = 2 }

login-current_example :
    (u : User) × IsIn u early.users
    × (u.email ≡ "b@example.com")
    × (u.is_active ≡ true)
    × (get_current_user toy same (some ("bearer", "|||||||.....")) soon
        ≡ (ok (current_user early.db u), record soon { ticks = 3 }))
login-current_example =
    login-current toy same toy-Decodes toy-Expires "b@example.com" "secret" "r" "bearer"
      "|||||||....." "r" early signed soon unique refl login_now refl (omega arith)

expired :
    (get_current_user toy same (some ("bearer", "|||||||.....")) (record soon { ticks = 9 })).0
    ≡ err unauthorized
unfolding get_current_user decode_access_token claimed_user
expired = refl
