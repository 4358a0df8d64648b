-- ===== src/Models/Jobs.antt =====
-- src/app/jobs/models.py
use smart_procurement_backen.Prelude.{ℕ, String, Option}
use smart_procurement_backen.Models.Basic.{RowId, Time, Payload}

-- JOB_STATUSES
pub data JobStatus : Type 0 where
  pending running done failed : JobStatus

pub record Job : Type 0 where
  pub id : RowId
  pub enterprise_id : Option RowId
  pub kind : String
  pub payload : Payload
  pub run_at : Time
  pub status : JobStatus
  pub attempts : ℕ
  pub max_attempts : ℕ
  pub locked_by : Option String
  pub locked_at : Option Time
  pub last_error : Option String
