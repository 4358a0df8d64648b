-- ===== src/Auth/SignIn.antt =====
-- About the sign-in of src/app/api/routers/auth.py.
use smart_procurement_backen.Prelude.{
  sorted_texts, ◌+◌, ◌≡◌, refl, ap, String, true, none, some, List, [], ◌∷◌, ◌++◌, map, Bool-cases,
  inl, inr,
}
use smart_procurement_backen.Errors.{Result, ok, err, app_error}
use smart_procurement_backen.Table.{select}
use smart_procurement_backen.Models.Basic.{RowId}
use smart_procurement_backen.Models.Enterprise.{Enterprise}
use smart_procurement_backen.Models.Identity.{User, Permission, RefreshToken}
use smart_procurement_backen.Session.{Db, Session, after, pure}
use smart_procurement_backen.Identity.{is_granted, effective_permissions}
use smart_procurement_backen.Identity.Tokens.{
  Verdict, verified, mismatch, verify_error, Security, verdict, access_claims, issue_access_token,
  issue_refresh_token,
}
use smart_procurement_backen.Auth.{
  only_enterprise, get_active_enterprise_id, has_email, get_user_by_email, admitted, authenticated,
  authenticate, sign_in, login,
}

-- The keys of the permissions that the tables grant.
abbrev pub granted_keys : Db → RowId → List String
granted_keys db user_id =
    sorted_texts (map (λ (p : Permission). p.key) (select (is_granted db user_id) db.permissions))

module _ (sec : Security) where
  abbrev pub new_token : String → Session → RowId → RefreshToken
  new_token raw s user_id = record {
    id = s.uuids s.drawn;
    user_id = user_id;
    token_hash = sec.hash raw;
    expires_at = s.clock (s.ticks + 1) + sec.jwt_refresh_ttl_seconds;
    revoked_at = none;
  }

  -- A sign-in that returns is of an active user, and adds one refresh token; else no table changes.
  abbrev pub Admits :
      String → String → String → Session → Result (String × String) × Session → Type 0
  Admits email password raw s (ok (access, refresh), s') =
      (e : Enterprise) × (u : User) × (s.enterprises ≡ e ∷ [])
      × (select (has_email e.id email) s.users ≡ u ∷ [])
      × (u.is_active ≡ true)
      × (sec.verify u.password_hash password ≡ verified)
      × (access ≡ sec.encode (access_claims sec (s.clock s.ticks) u.id (granted_keys s.db u.id)))
      × (refresh ≡ raw)
      × (s'.db ≡ record s.db { refresh_tokens = s.refresh_tokens ++ (new_token raw s u.id ∷ []) })
  Admits email password raw s (err e, s') = s'.db ≡ s.db

  user-Admits :
      (email password raw : String) (e : Enterprise) (u : User) (s : Session)
      → s.enterprises ≡ e ∷ []
      → select (has_email e.id email) s.users ≡ u ∷ []
      → Admits email password raw s
          (after (sign_in sec raw) (authenticated sec password (some u) s))
  unfolding sign_in effective_permissions issue_access_token issue_refresh_token
  user-Admits email password raw e u s only one = elim (Bool-cases u.is_active) [
    | inr off ↦ rw (off, after) refl
    | inl active ↦ simp active (go active (sec.verify u.password_hash password) refl)
  ]
    where
      go :
          u.is_active ≡ true
          → (v : Verdict) → sec.verify u.password_hash password ≡ v
          → Admits email password raw s (
              after (sign_in sec raw) (
                after
                  (λ matched. pure (admitted u matched))
                  (verdict (sec.verify u.password_hash password), s)))
      go active verified right =
          rw (right, after) (e, u, only, one, active, right, refl, refl, refl)
      go active mismatch right = rw (right, after) refl
      go active (verify_error x) right = rw (right, after) refl

  -- The three outcomes of the choice of the enterprise.
  active-one :
      (e : Enterprise) (s : Session)
      → s.enterprises ≡ e ∷ []
      → get_active_enterprise_id s ≡ (ok e.id, s)
  unfolding get_active_enterprise_id only_enterprise
  active-one e s only = ap (λ rows. only_enterprise rows s) only

  active-none :
      (s : Session)
      → s.enterprises ≡ []
      → get_active_enterprise_id s ≡ (err (app_error "config_error" 500), s)
  unfolding get_active_enterprise_id only_enterprise
  active-none s none_ = ap (λ rows. only_enterprise rows s) none_

  active-many :
      (e e' : Enterprise) (rows : List Enterprise) (s : Session)
      → s.enterprises ≡ e ∷ e' ∷ rows
      → get_active_enterprise_id s ≡ (err (app_error "config_error" 500), s)
  unfolding get_active_enterprise_id only_enterprise
  active-many e e' rows s many = ap (λ l. only_enterprise l s) many

  -- Whether it returns or raises: a sign-in that returns is of the only user with the email in the only
  -- enterprise, who is active and whose stored hash the password meets; it gives an access token for the
  -- permissions that the tables grant and adds one refresh token of that user with the full lifetime. A
  -- sign-in that raises changes no table.
  pub login-Admits :
      (email password raw : String) (s : Session)
      → Admits email password raw s (login sec email password raw s)
  unfolding login authenticate get_user_by_email sign_in
  login-Admits email password raw s = enterprise s.enterprises refl
    where
      user :
          (e : Enterprise) (rows : List User)
          → s.enterprises ≡ e ∷ []
          → select (has_email e.id email) s.users ≡ rows
          → Admits email password raw s (login sec email password raw s)
      user e [] only one = rw (active-one e s only, after) (rw (one, after) refl)
      user e (u ∷ []) only one =
          rw (active-one e s only, after)
            (rw (one, after) (user-Admits email password raw e u s only one))
      user e (u ∷ u' ∷ rows) only one = rw (active-one e s only, after) (rw (one, after) refl)

      enterprise :
          (rows : List Enterprise)
          → s.enterprises ≡ rows
          → Admits email password raw s (login sec email password raw s)
      enterprise [] only = rw (active-none s only, after) refl
      enterprise (e ∷ []) only = user e (select (has_email e.id email) s.users) only refl
      enterprise (e ∷ e' ∷ rows) only = rw (active-many e e' rows s only, after) refl
