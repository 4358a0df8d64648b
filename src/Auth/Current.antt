-- ===== src/Auth/Current.antt =====
-- About the access token that a sign-in of src/app/api/routers/auth.py gives.
use mathlib.Core.Path.{subst}
use smart_procurement_backen.Prelude.{
  and_parts, ◌+◌, ◌≡◌, refl, ap, String, Bool, true, false, none, some, [], ◌∷◌, Bool-cases, inl,
  inr, length, ◌≤◌, ◌<◌, ltb, IsIn, ==_refl, ◌==◌, str_eq, eq_iff, ◌∙◌, arith,
}
use smart_procurement_backen.Errors.{Result, ok, err}
use smart_procurement_backen.Table.{select, scalar_one_or_none}
use smart_procurement_backen.Table.Select.{select-IsIn, select-only}
use smart_procurement_backen.Models.Basic.{RowId, Time}
use smart_procurement_backen.Models.Identity.{User}
use smart_procurement_backen.Session.{Db, Session, after, lift}
use smart_procurement_backen.Identity.{
  effective_permissions, has_user_id, get_user, CurrentUser, with_permissions, subject_user,
  claimed_user, get_current_user, unauthorized,
}
use smart_procurement_backen.Identity.Tokens.{Claims, Security, access_claims, decode_access_token}
use smart_procurement_backen.Auth.{has_email, login}
use smart_procurement_backen.Auth.SignIn.{granted_keys, Admits, login-Admits}

abbrev pub current_user : Db → User → CurrentUser
current_user db u = record {
  id = u.id;
  enterprise_id = u.enterprise_id;
  permissions = granted_keys db u.id;
}

subject_user-some :
    (u : User) (t : Session)
    → select (has_user_id u.id) t.users ≡ u ∷ []
    → u.is_active ≡ true
    → subject_user (some u.id) t ≡ (ok (current_user t.db u), t)
unfolding subject_user get_user with_permissions effective_permissions
subject_user-some u t one active =
    ap (λ rows. after with_permissions (lift (scalar_one_or_none rows) t)) one
    ∙ rw (active, after) refl

-- What a bearer of a token gets while it lasts, and afterwards.
abbrev pub answer : Bool → CurrentUser → Result CurrentUser
answer true user = ok user
answer false user = err unauthorized

module _ (sec : Security) (lower : String → String) where
  -- A token of a user reads back as one of that user, and as one of its type, from the time of its `iat`
  -- until that of its `exp`.
  abbrev pub Decodes : Type 0
  Decodes =
      (c : Claims) (user_id : RowId) (issued expires at : Time)
      → c.sub ≡ some user_id
      → c.typ ≡ some "access"
      → c.iat ≡ some issued
      → c.exp ≡ some expires
      → issued ≤ at
      → at < expires
      → (c' : Claims) × (sec.decode at (sec.encode c) ≡ some c')
        × (c'.sub ≡ some user_id)
        × (c'.typ ≡ some "access")

  -- From the time of its `exp` on, it is refused.
  abbrev pub Expires : Type 0
  Expires =
      (c : Claims) (expires at : Time)
      → c.exp ≡ some expires
      → expires ≤ at
      → sec.decode at (sec.encode c) ≡ none

  -- Where an access token reads back as one of its user from its `iat` until its `exp` and is refused
  -- from then on, and user ids are unique: after a sign-in that returns, a later request on the same
  -- tables with its access token in a bearer header is of the active user with that email, with exactly
  -- the permissions that the tables grant, until the lifetime of the settings has passed, and is refused
  -- as unauthorized from then on; it writes nothing.
  pub login-current :
      Decodes
      → Expires
      → (email password raw scheme access refresh : String) (s t later : Session)
      → ((id : RowId) → length (select (has_user_id id) s.users) ≤ 1)
      → lower scheme ≡ "bearer"
      → login sec email password raw s ≡ (ok (access, refresh), t)
      → later.db ≡ t.db
      → s.clock s.ticks ≤ later.clock later.ticks
      → (u : User) × IsIn u s.users
        × (u.email ≡ email)
        × (u.is_active ≡ true)
        × (get_current_user sec lower (some (scheme, access)) later ≡ (
          answer
              (ltb (later.clock later.ticks) (s.clock s.ticks + sec.jwt_access_ttl_seconds))
              (current_user s.db u),
          record later { ticks = later.ticks + 1 },
        ))
  unfolding get_current_user claimed_user decode_access_token
  login-current decodes expires email password raw scheme access refresh s t later unique bearer
        signed kept after_ =
      let (e, u, only, one, active, right, same, again, db) =
        subst (λ r. Admits sec email password raw s r) signed
          (login-Admits sec email password raw s) in
      let (in_table, is) = select-IsIn (has_email e.id email) u s.users [] one in
      let own = select-only (has_user_id u.id) u s.users in_table (==_refl u.id) (unique u.id) in
      let users : later.users ≡ s.users = ap (λ (x : Db). x.users) (kept ∙ db) in
      let keys : current_user later.db u ≡ current_user s.db u =
        ap (λ (x : Db). current_user x u) (kept ∙ db) in
      let read : Session = record later { ticks = later.ticks + 1 } in
      let found =
        subject_user-some u read (ap (select (has_user_id u.id)) users ∙ own) active
        ∙ ap (λ c. (ok c, read)) keys in
      let named = and_parts (u.enterprise_id == e.id) (str_eq u.email email) is in
      let until = s.clock s.ticks + sec.jwt_access_ttl_seconds in
      let claims = access_claims sec (s.clock s.ticks) u.id (granted_keys s.db u.id) in
      (
        u,
        in_table,
        (eq_iff u.email email).0 named.1,
        active,
        rw (bearer, same)
            (elim (Bool-cases (ltb (later.clock later.ticks) until)) [
              | inl live ↦
                  let (c, reads, subject, access_) =
                    decodes claims u.id (s.clock s.ticks) until (later.clock later.ticks) refl refl
                      refl refl after_ (ground arith) in
                  rw (live, reads, access_, subject) found
              | inr over ↦
                  rw (over, expires claims until (later.clock later.ticks) refl (ground arith)) refl
            ]),
      )
