-- ===== src/Charm/Startup/Keeps.antt =====
-- The start of a server and the fields of a restore: `init_server` of src/charm.py.
use zookeeper_k8s_operator.Charm.{Observed}
use zookeeper_k8s_operator.Charm.Monad.Restoring.{
  KeepsRestore, KeepsFields-update_unit, fields_rules,
}
use zookeeper_k8s_operator.Tls.Keeps.{set_tls_files-KeepsRestore}
use zookeeper_k8s_operator.Charm.Startup.{start_server, started_fields, init_server}

start_server-KeepsRestore : (o : Observed) → KeepsRestore (start_server o)
unfolding start_server started_fields
start_server-KeepsRestore o =
    search (fields_rules, KeepsFields-update_unit, set_tls_files-KeepsRestore) depth 30

pub init_server-KeepsRestore : (o : Observed) → KeepsRestore (init_server o)
unfolding init_server
init_server-KeepsRestore o = search (fields_rules, start_server-KeepsRestore) depth 15
