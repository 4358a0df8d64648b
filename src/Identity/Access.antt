-- ===== src/Identity/Access.antt =====
-- About the checks of a request in src/app/identity/deps.py.
use smart_procurement_backen.Prelude.{
  sorted_texts, any-sorted_texts, ◌∙◌, and_parts, ◌+◌, ◌≡◌, refl, sym, ap, String, Bool, true,
  Option, none, some, List, [], ◌∷◌, map, ◌==◌, ==_iff, str_eq, eq_iff, any, IsIn, any-IsIn,
  Bool-cases, Option-cases, inl, inr,
}
use smart_procurement_backen.Errors.{Result, ok, err}
use mathlib.Core.Path.{subst}
use smart_procurement_backen.Table.{select}
use smart_procurement_backen.Table.Select.{select-IsIn}
use smart_procurement_backen.Models.Basic.{RowId}
use smart_procurement_backen.Models.Identity.{User, Role, Permission, RolePermission, UserRole}
use smart_procurement_backen.Session.{Db, Session, Exec, after, ◌>>=◌}
use smart_procurement_backen.Identity.Tokens.{Security, Claims, decode_access_token}
use smart_procurement_backen.Identity.{
  links_user, links_role, links_permission, is_granted, effective_permissions, has_user_id,
  get_user, CurrentUser, is_access, with_permissions, subject_user, claimed_user, get_current_user,
  require,
}

-- The chain of rows that grants a permission.
abbrev pub Grants : Db → RowId → String → Type 0
Grants db user_id key =
    (p : Permission) × (rp : RolePermission) × (r : Role) × (ur : UserRole) × IsIn p db.permissions
    × IsIn rp db.role_permissions
    × IsIn r db.roles
    × IsIn ur db.user_roles
    × (p.key ≡ key)
    × (rp.permission_id ≡ p.id)
    × (rp.role_id ≡ r.id)
    × (ur.role_id ≡ r.id)
    × (ur.user_id ≡ user_id)

-- The keys of the selected rows.
key-IsIn :
    (g : Permission → Bool) (key : String) (rows : List Permission)
    → any (λ k. str_eq k key) (map (λ (p : Permission). p.key) (select g rows)) ≡ true
    → (p : Permission) × IsIn p rows × (g p ≡ true) × (p.key ≡ key)
key-IsIn g key [] h = cc
key-IsIn g key (x ∷ rows) h = elim (Bool-cases (g x)) [
  | inr off ↦
      let (p, i, on, named) = key-IsIn g key rows (rw off at h) in (p, IsIn.there i, on, named)
  | inl on ↦ elim (Bool-cases (str_eq x.key key)) [
    | inl same ↦ (x, IsIn.here, on, (eq_iff x.key key).0 same)
    | inr other ↦
        let (p, i, on', named) = key-IsIn g key rows (rw (on, other) at h) in
        (p, IsIn.there i, on', named)
  ]
]

granted-Grants :
    (db : Db) (user_id : RowId) (p : Permission) (key : String)
    → IsIn p db.permissions
    → p.key ≡ key
    → is_granted db user_id p ≡ true
    → Grants db user_id key
granted-Grants db user_id p key p_in named granted =
    let (rp, rp_in, rp_ok) =
      any-IsIn (links_permission db user_id p.id) db.role_permissions granted in
    let (rp_id, roles_ok) =
      and_parts (rp.permission_id == p.id) (any (links_role db user_id rp.role_id) db.roles)
        rp_ok in
    let (r, r_in, r_ok) = any-IsIn (links_role db user_id rp.role_id) db.roles roles_ok in
    let (r_id, users_ok) =
      and_parts (r.id == rp.role_id) (any (links_user user_id r.id) db.user_roles) r_ok in
    let (ur, ur_in, ur_ok) = any-IsIn (links_user user_id r.id) db.user_roles users_ok in
    let (ur_role, ur_user) = and_parts (ur.role_id == r.id) (ur.user_id == user_id) ur_ok in
    (
      p,
      rp,
      r,
      ur,
      p_in,
      rp_in,
      r_in,
      ur_in,
      named,
      (==_iff rp.permission_id p.id).0 rp_id,
      sym ((==_iff r.id rp.role_id).0 r_id),
      (==_iff ur.role_id r.id).0 ur_role,
      (==_iff ur.user_id user_id).0 ur_user,
    )

module _ (sec : Security) (lower : String → String) (credentials : Option (String × String))
    (permission : String) where
  -- A route that depends on `require(permission)`.
  abbrev pub authorize : Exec CurrentUser
  authorize = get_current_user sec lower credentials >>= require permission

  -- A user that passes is the active user that an access token in a bearer header names, and rows of
  -- the four tables grant the permission. Nobody's pass or refusal writes anything.
  abbrev pub Allows : Session → Result CurrentUser × Session → Type 0
  Allows s (ok u, s') =
      (scheme : String) × (token : String) × (c : Claims) × (row : User) × (credentials
        ≡ some (scheme, token))
      × (lower scheme ≡ "bearer")
      × (sec.decode (s.clock s.ticks) token ≡ some c)
      × (c.typ ≡ some "access")
      × (c.sub ≡ some row.id)
      × (row.is_active ≡ true)
      × (u.id ≡ row.id)
      × (u.enterprise_id ≡ row.enterprise_id)
      × IsIn row s.users
      × Grants s.db row.id permission
      × (s'.db ≡ s.db)
  Allows s (err e, s') = s'.db ≡ s.db

  -- What is known of the request once its token was accepted.
  abbrev Named : Session → RowId → Type 0
  Named s user_id =
      (scheme : String) × (token : String) × (c : Claims) × (credentials ≡ some (scheme, token))
      × (lower scheme ≡ "bearer")
      × (sec.decode (s.clock s.ticks) token ≡ some c)
      × (c.typ ≡ some "access")
      × (c.sub ≡ some user_id)

  -- The session once the time was read.
  abbrev ticked : Session → Session
  ticked s = record s { ticks = s.ticks + 1 }

  user-Allows :
      (row : User) (s : Session)
      → IsIn row s.users
      → Named s row.id
      → Allows s (after (require permission) (with_permissions (some row) (ticked s)))
  unfolding with_permissions effective_permissions require
  user-Allows row s row_in (scheme, token, c, given, bearer, decoded, access, subject) =
      elim (Bool-cases row.is_active) [
        | inr off ↦ rw (off, after) refl
        | inl on ↦
            rw (on, after)
              (let keys =
                  map (λ (p : Permission). p.key) (select (is_granted s.db row.id) s.permissions) in
                let same = any-sorted_texts (λ k. str_eq k permission) keys in
                elim (Bool-cases (any (λ k. str_eq k permission) (sorted_texts keys))) [
                  | inr missing ↦ rw missing refl
                  | inl has ↦
                      let (p, p_in, granted, named) =
                        key-IsIn (is_granted s.db row.id) permission s.permissions
                          (sym same ∙ has) in
                      rw has (
                        scheme,
                        token,
                        c,
                        row,
                        given,
                        bearer,
                        decoded,
                        access,
                        subject,
                        on,
                        refl,
                        refl,
                        row_in,
                        granted-Grants s.db row.id p permission p_in named granted,
                        refl,
                      )
                ])
      ]

  found-Allows :
      (user_id : RowId) (s : Session)
      → Named s user_id
      → Allows s (after (require permission) (subject_user (some user_id) (ticked s)))
  unfolding subject_user get_user with_permissions
  found-Allows user_id s named = go (select (has_user_id user_id) s.users) refl
    where
      go :
          (rows : List User)
          → select (has_user_id user_id) s.users ≡ rows
          → Allows s (after (require permission) (subject_user (some user_id) (ticked s)))
      go [] e = rw (e, after, with_permissions) refl
      go (row ∷ []) e =
          let (row_in, own) = select-IsIn (has_user_id user_id) row s.users [] e in
          rw (e, after)
            (user-Allows row s row_in (subst (Named s) (sym ((==_iff row.id user_id).0 own)) named))
      go (row ∷ row' ∷ rows) e = rw (e, after) refl

  is_access-access : (typ : Option String) → is_access typ ≡ true → typ ≡ some "access"
  is_access-access none h = cc
  is_access-access (some x) h = ap some ((eq_iff x "access").0 h)

  claimed-Allows :
      (scheme token : String) (s : Session)
      → credentials ≡ some (scheme, token)
      → lower scheme ≡ "bearer"
      → Allows s (
          after (require permission) (claimed_user (sec.decode (s.clock s.ticks) token) (ticked s)))
  unfolding claimed_user subject_user
  claimed-Allows scheme token s given bearer =
      elim (Option-cases (sec.decode (s.clock s.ticks) token)) [
        | inl bad ↦ rw (bad, after) refl
        | inr (c, decoded) ↦ rw decoded (elim (Bool-cases (is_access c.typ)) [
          | inr other ↦ rw (other, after) refl
          | inl access ↦ rw access (elim (Option-cases c.sub) [
            | inl missing ↦ rw (missing, subject_user, after) refl
            | inr (user_id, named) ↦ rw named (
                found-Allows user_id s
                  (scheme, token, c, given, bearer, decoded, is_access-access c.typ access, named))
          ])
        ])
      ]

  -- A protected route lets pass only an active user of the table whom an access token in a bearer
  -- header names and whom rows of the four permission tables grant the permission; whether the
  -- user passes or not, nothing is written.
  pub authorize-Allows : (s : Session) → Allows s (authorize s)
  unfolding get_current_user decode_access_token
  authorize-Allows s = go credentials refl
    where
      go :
          (x : Option (String × String))
          → credentials ≡ x
          → Allows s (after (require permission) (get_current_user sec lower x s))
      go none e = refl
      go (some (scheme, token)) e = elim (Bool-cases (str_eq (lower scheme) "bearer")) [
        | inr other ↦ rw (other, after) refl
        | inl bearer ↦
            rw bearer (claimed-Allows scheme token s e ((eq_iff (lower scheme) "bearer").0 bearer))
      ]
