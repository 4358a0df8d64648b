-- ===== src/DataSources/Safe.antt =====
-- About the keys of a configuration that src/app/integration/service.py stores.
use smart_procurement_backen.Prelude.{
  ◌≡◌, refl, String, Bool, true, false, not, Option, none, some, [], ◌∷◌, str_eq, Bool-cases, inl,
  inr, All, All-map,
}
use smart_procurement_backen.Table.Select.{select-All}
use smart_procurement_backen.Models.Basic.{Json, Payload}
use smart_procurement_backen.Session.{Db}
use smart_procurement_backen.Mappings.{text_in}
use smart_procurement_backen.DataSources.{
  secret_keys, is_safe, safe_config, set_key, set_keys, merged,
}

-- No key of the configuration is one of the secret keys.
abbrev pub HasNoSecret : Payload → Type 0
HasNoSecret config = All (λ (entry : String × Json). text_in entry.0 secret_keys ≡ false) config

abbrev pub IsClean : Db → Type 0
IsClean db = All (λ ds. HasNoSecret ds.config) db.data_sources

not-true : (b : Bool) → not b ≡ true → b ≡ false
not-true true h = cc
not-true false h = refl

pub safe_config-HasNoSecret : (config : Payload) → HasNoSecret (safe_config config)
safe_config-HasNoSecret config =
    All-map (λ entry. is_safe entry ≡ true) (λ entry. text_in entry.0 secret_keys ≡ false)
      (λ entry. not-true (text_in entry.0 secret_keys)) (safe_config config)
      (select-All is_safe config)

pub set_key-HasNoSecret :
    (key : String) (value : Json) (config : Payload)
    → text_in key secret_keys ≡ false
    → HasNoSecret config
    → HasNoSecret (set_key key value config)
unfolding set_key
set_key-HasNoSecret key value [] safe h = (safe, tt)
set_key-HasNoSecret key value ((k, v) ∷ rest) safe h = elim (Bool-cases (str_eq k key)) [
  | inl same ↦ rw same (h.0, h.1)
  | inr other ↦ rw other (h.0, set_key-HasNoSecret key value rest safe h.1)
]

set_keys-HasNoSecret :
    (entries config : Payload)
    → HasNoSecret entries
    → HasNoSecret config
    → HasNoSecret (set_keys entries config)
unfolding set_keys
set_keys-HasNoSecret [] config safe h = h
set_keys-HasNoSecret ((key, value) ∷ entries) config safe h =
    set_keys-HasNoSecret entries (set_key key value config) safe.1
      (set_key-HasNoSecret key value config safe.0 h)

pub merged-HasNoSecret :
    (config : Option Payload) (old : Payload) → HasNoSecret old → HasNoSecret (merged config old)
merged-HasNoSecret none old h = h
merged-HasNoSecret (some config) old h =
    set_keys-HasNoSecret (safe_config config) old (safe_config-HasNoSecret config) h
