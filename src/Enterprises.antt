-- ===== src/Enterprises.antt =====
-- src/app/enterprise/service.py: reading and changing the settings of an enterprise. The upper case of a
-- text is an argument.
pub mod Supported
mod Tests
use smart_procurement_backen.Prelude.{
  leb, ℕ, Bool, String, Option, none, some, List, [], ◌∷◌, if◌then◌else◌, ◌==◌, ◌≡◌, refl, true,
  Bool-cases, inl, inr, any, All, All-map,
}
use smart_procurement_backen.Errors.{domain_rule, data_error, bad_currency, bad_adapter}
use smart_procurement_backen.Table.{select, update}
use smart_procurement_backen.Models.Basic.{RowId, Payload}
use smart_procurement_backen.Models.Domain.{characters}
use smart_procurement_backen.Models.Enterprise.{Enterprise, execution_adapters}
use smart_procurement_backen.Session.{Exec, pure, raise, require_one, ◌>>=◌, ◌>>◌, modify}
use smart_procurement_backen.Mappings.{text_in}

abbrev pub has_enterprise_id : RowId → Enterprise → Bool
has_enterprise_id id e = e.id == id

unfoldable pub get_enterprise : RowId → Exec Enterprise
get_enterprise enterprise_id s =
    require_one (select (has_enterprise_id enterprise_id) s.enterprises) s

unfoldable pub save : Enterprise → Exec Enterprise
save e = do
  modify (λ db. record db { enterprises = update (has_enterprise_id e.id) (λ _. e) db.enterprises })
  pure e

-- `await session.flush()`: the column base_currency is a String(3).
unfoldable pub flush_settings : Enterprise → Exec Enterprise
flush_settings e = if leb (characters e.base_currency) 3 then pure e else raise data_error

module _ (upper : String → String) where
  unfoldable pub set_currency : Option String → Enterprise → Exec Enterprise
  set_currency none e = pure e
  set_currency (some currency) e =
      if characters currency == 3
      then save (record e { base_currency = upper currency })
      else raise (domain_rule bad_currency)

  unfoldable pub set_adapter : Option String → Enterprise → Exec Enterprise
  set_adapter none e = pure e
  set_adapter (some adapter) e =
      if text_in adapter execution_adapters
      then save (record e { active_execution_adapter = adapter })
      else raise (domain_rule bad_adapter)

  unfoldable pub set_settings : Option Payload → Enterprise → Exec Enterprise
  set_settings none e = pure e
  set_settings (some settings) e = save (record e { settings = settings })

  unfoldable pub update_enterprise :
      RowId → Option String → Option String → Option Payload → Exec Enterprise
  update_enterprise enterprise_id base_currency active_execution_adapter settings = do
    e ← get_enterprise enterprise_id
    e' ← set_currency base_currency e
    e'' ← set_adapter active_execution_adapter e'
    e''' ← set_settings settings e''
    flush_settings e'''
