-- ===== src/Models.antt =====
-- The rows of the tables (src/app/*/models.py), a module for each package. The columns `created_at`
-- and `updated_at` are filled by the database and appear nowhere: no modelled query reads them.
pub mod Basic
pub mod Lorm
pub mod Jobs
pub mod Observation
pub mod Integration
pub mod Identity
pub mod Audit
pub mod Analysis
pub mod Secret
pub mod Domain
pub mod Enterprise
