-- ===== src/Errors.antt =====
-- The exceptions that the services raise (src/app/core/errors.py and the Python and database
-- exceptions that pass through them), and the HTTP status that the handlers give each.
use smart_procurement_backen.Prelude.{ℕ, String, ◌≡◌, refl, ◌⊎◌, inl, inr}

-- Why a `DomainRuleError` was raised; the message text itself is not kept.
pub data Rule : Type 0 where
  unknown_level not_one_step l5_not_allowed : Rule
  bad_kind bad_connector_type upload_not_file bad_entity not_introspected : Rule
  bad_currency bad_adapter : Rule

pub data Error : Type 0 where
  app_error : String → ℕ → Error
  not_found conflict permission_denied : Error
  domain_rule : Rule → Error
  upstream : Error
  -- raised by Python, the ORM or the database, and rendered by the catch-all handler
  index_error key_error assertion_error multiple_results integrity_error : Error
  audit_integrity llm_unavailable : Error
  connector_error : Error
  type_error value_error data_error missing_greenlet : Error

pub data Result {ℓ} (A : Type ℓ) : Type ℓ where
  ok : A → Result A
  err : Error → Result A

-- `status_code` of the class, and 500 by `_handle_unexpected` for what is no `AppError`.
unfoldable pub status_code : Error → ℕ
status_code (app_error _ code) = code
status_code not_found = 404
status_code conflict = 409
status_code permission_denied = 403
status_code (domain_rule _) = 422
status_code upstream = 502
status_code _ = 500

pub Result-cases {ℓ} :
    {A : Type ℓ} (r : Result A) → ((a : A) × (r ≡ ok a)) ⊎ ((e : Error) × (r ≡ err e))
Result-cases (ok a) = inl (a, refl)
Result-cases (err e) = inr (e, refl)
