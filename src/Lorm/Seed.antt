-- ===== src/Lorm/Seed.antt =====
-- src/app/lorm/seed.py: the initial levels, created where they are missing.
use smart_procurement_backen.Prelude.{
  ℕ, ◌+◌, String, Bool, true, false, List, [], ◌∷◌, ◌++◌, if◌then◌else◌, ◌==◌, ◌||◌, str_eq,
}
use smart_procurement_backen.Table.{select}
use smart_procurement_backen.Models.Basic.{RowId, Payload, number}
use smart_procurement_backen.Models.Lorm.{Level, l0, l1, l2, l3, l4, Capability}
use smart_procurement_backen.Session.{Exec, pure, modify, uuid4, ◌>>=◌, ◌>>◌}

-- SEED_LEVELS: key, level and `l5_allowed`.
abbrev pub SeedEntry : Type 0
SeedEntry = String × Level × Bool

abbrev pub seed_levels : List SeedEntry
seed_levels =
    ("proc.inventory.observe", l0, true)
    ∷ ("proc.demand.observe", l1, true)
    ∷ ("proc.risk.diagnose", l2, true)
    ∷ ("proc.order.recommend", l3, true)
    ∷ ("proc.po.create", l3, true)
    ∷ ("proc.replenish.routine", l4, true)
    ∷ ("proc.supplier.add", l4, false)
    ∷ ("proc.payment.release", l3, false)
    ∷ []

abbrev pub default_tolerances : Payload
default_tolerances =
    ("price_pct", number 10) ∷ ("qty_short_pct", number 10) ∷ ("late_days", number 3) ∷ []

-- 0.3, in thousandths
abbrev pub default_uncertainty_threshold : ℕ
default_uncertainty_threshold = 300

-- `key in existing`
abbrev pub key_in : String → List Capability → Bool
key_in key [] = false
key_in key (c ∷ cs) = str_eq c.key key || key_in key cs

-- The loop of `seed_capabilities`; `existing` was read before it.
unfoldable pub seed_loop : RowId → List Capability → List SeedEntry → ℕ → Exec ℕ
seed_loop enterprise_id existing [] created = pure created
seed_loop enterprise_id existing ((key, level, l5_allowed) ∷ entries) created =
    if key_in key existing
    then seed_loop enterprise_id existing entries created
    else (uuid4 >>= λ id.
        modify (λ db. record db {
          capabilities =
              db.capabilities
              ++ (record {
                id = id;
                enterprise_id = enterprise_id;
                key = key;
                level = level;
                l5_allowed = l5_allowed;
                verification_tolerances = default_tolerances;
                uncertainty_threshold = default_uncertainty_threshold;
              }
                  ∷ []);
        })
        >> seed_loop enterprise_id existing entries (created + 1))

unfoldable pub seed_capabilities : RowId → Exec ℕ
seed_capabilities enterprise_id s =
    seed_loop enterprise_id (select (λ c. c.enterprise_id == enterprise_id) s.capabilities)
      seed_levels 0 s
