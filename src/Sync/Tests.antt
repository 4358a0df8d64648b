-- ===== src/Sync/Tests.antt =====
-- Synchronisation at concrete inputs.
use smart_procurement_backen.Prelude.{◌≡◌, refl, none, arith}
use smart_procurement_backen.Errors.{ok}
use smart_procurement_backen.DataSources.Connection.{load_credential}
use smart_procurement_backen.Sync.Run.{sync_source}
use smart_procurement_backen.Sync.Keyed.{IsKeyed}
use smart_procurement_backen.Sync.Identity.{sync_source-IsKeyed}
use smart_procurement_backen.Sync.Outcome.{Syncs, Records, sync_source-Syncs, sync_source-refused}
use smart_procurement_backen.Sync.Sample.{
  locked, plain, wms, start, answers, refuses, run, two, done,
}

sync_source-IsKeyed_example : IsKeyed done.entities
sync_source-IsKeyed_example =
    sync_source-IsKeyed plain 9 1 locked (answers two) none start (λ _ _ _. omega arith)

sync_source-Syncs_example : Syncs 9 1 start (run two start)
sync_source-Syncs_example =
    sync_source-Syncs plain 9 1 locked (answers two) none start (λ _. omega arith)

start_loads : load_credential locked none start ≡ (ok none, start)
unfolding load_credential
start_loads = refl

sync_source-refused_example :
    Records plain 9 1 wms "timed out" start (sync_source plain locked refuses 9 1 none start)
sync_source-refused_example =
    sync_source-refused plain 9 1 locked refuses none start wms none "timed out" (λ _. omega arith)
      refl start_loads refl
