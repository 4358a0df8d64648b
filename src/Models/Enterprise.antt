-- ===== src/Models/Enterprise.antt =====
-- src/app/enterprise/models.py
use smart_procurement_backen.Prelude.{String, List, [], ◌∷◌}
use smart_procurement_backen.Models.Basic.{RowId, Payload}

-- EXECUTION_ADAPTERS
abbrev pub execution_adapters : List String
execution_adapters = "simulated" ∷ "generic_rest" ∷ []

pub record Enterprise : Type 0 where
  pub id : RowId
  pub name : String
  pub base_currency : String
  pub active_execution_adapter : String
  pub settings : Payload
