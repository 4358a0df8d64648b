-- ===== src/Session/Sample.antt =====
-- An empty database, and a session over any tables whose clock and uuids count upwards: the ground
-- of the tests.
use smart_procurement_backen.Prelude.{◌+◌, []}
use smart_procurement_backen.Session.{Db, Session}

abbrev pub empty_db : Db
empty_db = record {
  capabilities = [];
  level_events = [];
  promotion_requests = [];
  jobs = [];
  gaps = [];
  data_sources = [];
  source_fields = [];
  mappings = [];
  mapping_events = [];
  users = [];
  roles = [];
  permissions = [];
  role_permissions = [];
  user_roles = [];
  refresh_tokens = [];
  audit_records = [];
  findings = [];
  signal_links = [];
  signals = [];
  secrets = [];
  entities = [];
  aggregates = [];
  explanations = [];
  enterprises = [];
}

abbrev pub session_on : Db → Session
session_on db = record {
  db = db;
  clock = λ n. 1000 + n;
  ticks = 0;
  uuids = λ n. 100 + n;
  drawn = 0;
}
