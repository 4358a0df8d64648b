-- ===== src/Enterprises/Supported.antt =====
-- About the execution adapters in src/app/enterprise/service.py.
use smart_procurement_backen.Prelude.{
  leb, ◌≡◌, String, true, Option, none, some, ◌==◌, Bool-cases, inl, inr, All,
}
use smart_procurement_backen.Errors.{Result, ok, err}
use smart_procurement_backen.Table.{select}
use smart_procurement_backen.Table.Select.{All-select}
use smart_procurement_backen.Table.Update.{All-update}
use smart_procurement_backen.Models.Basic.{RowId, Payload}
use smart_procurement_backen.Models.Domain.{characters}
use smart_procurement_backen.Models.Enterprise.{Enterprise, execution_adapters}
use smart_procurement_backen.Session.{Session, Exec, after, require_one-cases}
use smart_procurement_backen.Mappings.{text_in}
use smart_procurement_backen.Enterprises.{
  has_enterprise_id, get_enterprise, save, flush_settings, set_currency, set_adapter, set_settings,
  update_enterprise,
}

-- The adapter is one of EXECUTION_ADAPTERS.
abbrev pub IsSupported : Enterprise → Type 0
IsSupported e = text_in e.active_execution_adapter execution_adapters ≡ true

-- The rows are supported, and so is what the call returns.
abbrev pub Supports : Result Enterprise × Session → Type 0
Supports (ok e, s) = IsSupported e × All IsSupported s.enterprises
Supports (err e, s) = All IsSupported s.enterprises

after-Supports :
    (f : Enterprise → Exec Enterprise) (r : Result Enterprise × Session)
    → ((e : Enterprise) (s : Session)
        → IsSupported e
        → All IsSupported s.enterprises
        → Supports (f e s))
    → Supports r
    → Supports (after f r)
after-Supports f (ok e, s) next (own, all) = next e s own all
after-Supports f (err e, s) next all = all

save-Supports :
    (e : Enterprise) (s : Session)
    → IsSupported e
    → All IsSupported s.enterprises
    → Supports (save e s)
unfolding save
save-Supports e s own all = (
  own,
  All-update (has_enterprise_id e.id) (λ _. e) IsSupported IsSupported (λ x h hit. own)
      (λ x h miss. h) s.enterprises all,
)

flush_settings-Supports :
    (e : Enterprise) (s : Session)
    → IsSupported e
    → All IsSupported s.enterprises
    → Supports (flush_settings e s)
unfolding flush_settings
flush_settings-Supports e s own all = elim (Bool-cases (leb (characters e.base_currency) 3)) [
  | inl short ↦ simp short (own, all)
  | inr long ↦ rw long all
]

module _ (upper : String → String) where
  set_currency-Supports :
      (currency : Option String) (e : Enterprise) (s : Session)
      → IsSupported e
      → All IsSupported s.enterprises
      → Supports (set_currency upper currency e s)
  unfolding set_currency
  set_currency-Supports none e s own all = (own, all)
  set_currency-Supports (some c) e s own all = elim (Bool-cases (characters c == 3)) [
    | inl three ↦ rw three (save-Supports (record e { base_currency = upper c }) s own all)
    | inr other ↦ rw other all
  ]

  set_adapter-Supports :
      (adapter : Option String) (e : Enterprise) (s : Session)
      → IsSupported e
      → All IsSupported s.enterprises
      → Supports (set_adapter upper adapter e s)
  unfolding set_adapter
  set_adapter-Supports none e s own all = (own, all)
  set_adapter-Supports (some a) e s own all = elim (Bool-cases (text_in a execution_adapters)) [
    | inl known ↦ rw known (save-Supports (record e { active_execution_adapter = a }) s known all)
    | inr other ↦ rw other all
  ]

  set_settings-Supports :
      (settings : Option Payload) (e : Enterprise) (s : Session)
      → IsSupported e
      → All IsSupported s.enterprises
      → Supports (set_settings upper settings e s)
  unfolding set_settings
  set_settings-Supports none e s own all = (own, all)
  set_settings-Supports (some x) e s own all = save-Supports (record e { settings = x }) s own all

  get_enterprise-Supports :
      (id : RowId) (s : Session) → All IsSupported s.enterprises → Supports (get_enterprise id s)
  unfolding get_enterprise
  get_enterprise-Supports id s all =
      elim (require_one-cases (select (has_enterprise_id id) s.enterprises) s) [
        | inr (e, bad) ↦ rw bad all
        | inl (e, one, good) ↦
            let own = rw one at (All-select (has_enterprise_id id) IsSupported s.enterprises all) in
            rw good (own.0, all)
      ]

  -- If every enterprise has one of the execution adapters, this is so after a change of the settings,
  -- whether it returns or raises, and of the enterprise that it returns.
  pub update_enterprise-Supports :
      (enterprise_id : RowId) (base_currency active_execution_adapter : Option String)
      (settings : Option Payload) (s : Session)
      → All IsSupported s.enterprises
      → Supports
          (update_enterprise upper enterprise_id base_currency active_execution_adapter settings s)
  unfolding update_enterprise
  update_enterprise-Supports id currency adapter settings s all =
      after-Supports _ (get_enterprise id s)
        (λ e t own rest.
          after-Supports _ (set_currency upper currency e t)
            (λ e' u own' rest'.
              after-Supports _ (set_adapter upper adapter e' u)
                (λ e'' v own'' rest''.
                  after-Supports flush_settings (set_settings upper settings e'' v)
                    flush_settings-Supports (set_settings-Supports settings e'' v own'' rest''))
                (set_adapter-Supports adapter e' u own' rest'))
            (set_currency-Supports currency e t own rest))
        (get_enterprise-Supports id s all)
