-- ===== src/Models/Identity.antt =====
-- src/app/identity/models.py
use smart_procurement_backen.Prelude.{String, Bool, Option}
use smart_procurement_backen.Models.Basic.{RowId, Time}

pub record User : Type 0 where
  pub id : RowId
  pub enterprise_id : RowId
  pub email : String
  pub full_name : String
  pub password_hash : String
  pub is_active : Bool

pub record Role : Type 0 where
  pub id : RowId
  pub enterprise_id : RowId
  pub key : String
  pub name : String

pub record Permission : Type 0 where
  pub id : RowId
  pub key : String
  pub description : String

pub record RolePermission : Type 0 where
  pub role_id : RowId
  pub permission_id : RowId

pub record UserRole : Type 0 where
  pub user_id : RowId
  pub role_id : RowId

pub record RefreshToken : Type 0 where
  pub id : RowId
  pub user_id : RowId
  pub token_hash : String
  pub expires_at : Time
  pub revoked_at : Option Time
