-- ===== src/Session/Keeps.antt =====
-- A property of the tables that a call keeps, whether it returns or raises.
use smart_procurement_backen.Errors.{Result, ok, err}
use smart_procurement_backen.Session.{Db, Session, Exec, after, ◌>>=◌}

module _ {ℓ} (P : Db → Type ℓ) where
  abbrev pub Keeps : {A : Type 0} → Exec A → Type ℓ
  Keeps m = (s : Session) → P s.db → P (m s).1.db

  pub after-Keeps :
      {A B : Type 0} (f : A → Exec B) (r : Result A × Session)
      → P r.1.db
      → ((a : A) → Keeps (f a))
      → P (after f r).1.db
  after-Keeps f (ok a, s) h keeps = keeps a s h
  after-Keeps f (err e, s) h keeps = h

  pub >>=-Keeps :
      {A B : Type 0} (m : Exec A) (f : A → Exec B)
      → Keeps m
      → ((a : A) → Keeps (f a))
      → Keeps (m >>= f)
  >>=-Keeps m f keeps keeps' s h = after-Keeps f (m s) (keeps s h) keeps'
