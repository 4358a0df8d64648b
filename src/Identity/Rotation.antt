-- ===== src/Identity/Rotation.antt =====
-- About the refresh tokens of src/app/identity/security.py.
use smart_procurement_backen.Prelude.{
  ◌+◌, ◌<◌, ◌≡◌, refl, String, true, false, Option, none, some, List, [], ◌∷◌, ◌++◌, ==_refl, leb,
  str_eq, is_none, arith, Bool-cases, Option-cases, inl, inr,
}
use smart_procurement_backen.Errors.{Result, ok, err}
use smart_procurement_backen.Table.{select, update}
use smart_procurement_backen.Table.Select.{select-append}
use smart_procurement_backen.Table.Update.{select-update_same}
use smart_procurement_backen.Models.Basic.{RowId, Time}
use smart_procurement_backen.Models.Identity.{RefreshToken}
use smart_procurement_backen.Session.{Session, after}
use smart_procurement_backen.Identity.Tokens.{
  Security, has_hash, has_token_id, revoked, revoke_row, issue_refresh_token, find_token, rotate,
  consume_found, consume_refresh_token, revoke_found, revoke_refresh_token,
}

module _ (sec : Security) where
  -- A token was exchanged: it was the only one with its hash, neither revoked nor expired; it is
  -- revoked, and one token with the new hash and the full lifetime is added for the same user. No
  -- exchange and no exception change a table.
  abbrev pub Consumes :
      String → String → Session → Result (Option (RowId × String)) × Session → Type 0
  Consumes raw new_raw s (ok (some (user_id, issued)), s') =
      (t : RefreshToken) × (new : RefreshToken) × (select (has_hash (sec.hash raw)) s.refresh_tokens
        ≡ t ∷ [])
      × (t.revoked_at ≡ none)
      × (s.clock s.ticks < t.expires_at)
      × (user_id ≡ t.user_id)
      × (issued ≡ new_raw)
      × (new.user_id ≡ t.user_id)
      × (new.token_hash ≡ sec.hash new_raw)
      × (new.expires_at ≡ s.clock (s.ticks + 1 + 1) + sec.jwt_refresh_ttl_seconds)
      × (new.revoked_at ≡ none)
      × (s'.db ≡ record s.db {
        refresh_tokens =
            update (has_token_id t.id) (revoked (s.clock (s.ticks + 1))) s.refresh_tokens
            ++ (new ∷ []);
      })
  Consumes raw new_raw s (ok none, s') = s'.db ≡ s.db
  Consumes raw new_raw s (err e, s') = s'.db ≡ s.db

  is_none-none : (o : Option Time) → is_none o ≡ true → o ≡ none
  is_none-none none h = refl
  is_none-none (some x) h = cc

  found-Consumes :
      (raw new_raw : String) (t : RefreshToken) (s : Session)
      → select (has_hash (sec.hash raw)) s.refresh_tokens ≡ t ∷ []
      → Consumes raw new_raw s (consume_found sec (some t) new_raw s)
  unfolding consume_found rotate issue_refresh_token
  found-Consumes raw new_raw t s one = elim (Bool-cases (is_none t.revoked_at)) [
    | inr over ↦ rw over refl
    | inl live ↦ rw live (elim (Bool-cases (leb t.expires_at (s.clock s.ticks))) [
      | inl late ↦ rw late refl
      | inr early ↦ rw early (
        t,
        record {
          id = s.uuids s.drawn;
          user_id = t.user_id;
          token_hash = sec.hash new_raw;
          expires_at = s.clock (s.ticks + 1 + 1) + sec.jwt_refresh_ttl_seconds;
          revoked_at = none;
        },
        one,
        is_none-none t.revoked_at live,
        ground arith,
        refl,
        refl,
        refl,
        refl,
        refl,
        refl,
        refl,
      )
    ])
  ]

  -- An exchange revokes the only token with the hash, which was neither revoked nor expired, and
  -- adds one token of the same user with the full lifetime; a call that refuses or raises changes
  -- no table.
  pub consume_refresh_token-Consumes :
      (raw new_raw : String) (s : Session)
      → Consumes raw new_raw s (consume_refresh_token sec raw new_raw s)
  unfolding consume_refresh_token find_token consume_found
  consume_refresh_token-Consumes raw new_raw s =
      go (select (has_hash (sec.hash raw)) s.refresh_tokens) refl
    where
      go :
          (rows : List RefreshToken)
          → select (has_hash (sec.hash raw)) s.refresh_tokens ≡ rows
          → Consumes raw new_raw s (consume_refresh_token sec raw new_raw s)
      go [] e = rw (e, after) refl
      go (t ∷ []) e = rw (e, after) (found-Consumes raw new_raw t s e)
      go (t ∷ u ∷ ts) e = rw (e, after) refl

  -- A token with a revoked row is not accepted.
  pub consume-refused :
      (raw new_raw : String) (t : RefreshToken) (at : Time) (s : Session)
      → select (has_hash (sec.hash raw)) s.refresh_tokens ≡ t ∷ []
      → t.revoked_at ≡ some at
      → consume_refresh_token sec raw new_raw s ≡ (ok none, s)
  unfolding consume_refresh_token find_token consume_found
  consume-refused raw new_raw t at s one over = rw (one, after, over) refl

  -- The rows with the hash once the only one of them was revoked, and others were added.
  revoked-only :
      (h : String) (t : RefreshToken) (at : Time) (rows added : List RefreshToken)
      → select (has_hash h) rows ≡ t ∷ []
      → select (has_hash h) added ≡ []
      → select (has_hash h) (update (has_token_id t.id) (revoked at) rows ++ added)
        ≡ revoked at t ∷ []
  revoked-only h t at rows added one none_added =
      rw (select-append (has_hash h) (update (has_token_id t.id) (revoked at) rows) added) (
        rw (select-update_same (has_token_id t.id) (revoked at) (has_hash h) (λ x. refl) rows)
          (rw (one, none_added, ==_refl t.id) refl))

  -- After an exchange of a token, the next exchange of it is refused and writes nothing, if the
  -- replacement has another hash.
  pub consume_refresh_token-once :
      (raw new_raw again_raw : String) (s : Session) (user_id : RowId) (issued : String)
      → str_eq (sec.hash new_raw) (sec.hash raw) ≡ false
      → (consume_refresh_token sec raw new_raw s).0 ≡ ok (some (user_id, issued))
      → let s' = (consume_refresh_token sec raw new_raw s).1 in
        consume_refresh_token sec raw again_raw s' ≡ (ok none, s')
  consume_refresh_token-once raw new_raw again_raw s user_id issued distinct done =
      go (consume_refresh_token sec raw new_raw s) (consume_refresh_token-Consumes raw new_raw s)
        done
    where
      go :
          (r : Result (Option (RowId × String)) × Session)
          → Consumes raw new_raw s r
          → r.0 ≡ ok (some (user_id, issued))
          → consume_refresh_token sec raw again_raw r.1 ≡ (ok none, r.1)
      go (ok (some (u, i)), s')
            (t, new, one, live, early, own, same, user, hashed, until, fresh, written) e =
          let at = s.clock (s.ticks + 1) in
          let other : select (has_hash (sec.hash raw)) (new ∷ []) ≡ [] =
            rw (hashed, distinct) refl in
          let rows : select (has_hash (sec.hash raw)) s'.refresh_tokens ≡ revoked at t ∷ [] =
            rw written (revoked-only (sec.hash raw) t at s.refresh_tokens (new ∷ []) one other) in
          consume-refused raw again_raw (revoked at t) at s' rows refl
      go (ok none, s') c e = cc
      go (err x, s') c e = cc

  -- Where one token has the hash, revoking it returns, and the next exchange of it is refused and
  -- writes nothing.
  pub revoke_refresh_token-refused :
      (raw new_raw : String) (s : Session) (t : RefreshToken)
      → select (has_hash (sec.hash raw)) s.refresh_tokens ≡ t ∷ []
      → let s' = (revoke_refresh_token sec raw s).1 in
        ((revoke_refresh_token sec raw s).0 ≡ ok tt)
        × (consume_refresh_token sec raw new_raw s' ≡ (ok none, s'))
  unfolding revoke_refresh_token find_token revoke_found
  revoke_refresh_token-refused raw new_raw s t one =
      rw (one, after)
        (elim (Option-cases t.revoked_at) [
          | inr (at, over) ↦ rw over (refl, consume-refused raw new_raw t at s one over)
          | inl live ↦
              let at = s.clock s.ticks in
              let s' : Session = record s { db = revoke_row t.id at s.db; ticks = s.ticks + 1 } in
              let rows : select (has_hash (sec.hash raw)) s'.refresh_tokens ≡ revoked at t ∷ [] =
                rw
                  (select-update_same (has_token_id t.id) (revoked at) (has_hash (sec.hash raw))
                    (λ x. refl) s.refresh_tokens)
                  (rw (one, ==_refl t.id) refl) in
              rw live (refl, consume-refused raw new_raw (revoked at t) at s' rows refl)
        ])
