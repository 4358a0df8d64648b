-- ===== src/Models/Secret.antt =====
-- src/app/core/models_secret.py
use smart_procurement_backen.Prelude.{String, Option}
use smart_procurement_backen.Models.Basic.{RowId}

pub record Secret : Type 0 where
  pub id : RowId
  pub enterprise_id : RowId
  pub purpose : String
  pub ciphertext : String
  pub created_by : Option RowId
