-- ===== src/Charm/Changed/Keeps.antt =====
-- The central handler and the fields of a restore: `_on_cluster_relation_changed` of
-- src/charm.py.
use zookeeper_k8s_operator.Base.{String, Option, none, some}
use zookeeper_k8s_operator.Charm.{Observed}
use zookeeper_k8s_operator.Charm.Monad.Restoring.{
  KeepsRestore, KeepsFields-of, KeepsFields-done, KeepsFields-update_unit, fields_rules,
}
use zookeeper_k8s_operator.Charm.Clients.{disconnect_clients}
use zookeeper_k8s_operator.Charm.Clients.Keeps.{disconnect_clients-KeepsState}
use zookeeper_k8s_operator.Charm.Startup.Keeps.{init_server-KeepsRestore}
use zookeeper_k8s_operator.Charm.Services.Keeps.{update_external_services-KeepsRestore}
use zookeeper_k8s_operator.Charm.Reconcile.Keeps.{update_quorum-KeepsRestore}
use zookeeper_k8s_operator.Charm.Changed.{
  needs_restart, report_health, reconcile, expire, converge, on_cluster_relation_changed,
  on_secret_changed,
}

pub disconnect_clients-KeepsRestore : (o : Observed) → KeepsRestore (disconnect_clients o)
disconnect_clients-KeepsRestore o =
    KeepsFields-of (disconnect_clients o) (disconnect_clients-KeepsState o)

needs_restart-KeepsRestore : (o : Observed) → KeepsRestore (needs_restart o)
unfolding needs_restart
needs_restart-KeepsRestore o = search fields_rules depth 12

report_health-KeepsRestore : (o : Observed) → KeepsRestore (report_health o)
unfolding report_health
report_health-KeepsRestore o = search fields_rules depth 15

reconcile-KeepsRestore : (o : Observed) → KeepsRestore (reconcile o)
unfolding reconcile
reconcile-KeepsRestore o =
    search
      (
        fields_rules, update_quorum-KeepsRestore, needs_restart-KeepsRestore,
        report_health-KeepsRestore,
      )
      depth 15

expire-KeepsRestore : KeepsRestore expire
unfolding expire
expire-KeepsRestore = search (fields_rules, KeepsFields-update_unit)

converge-KeepsRestore : (o : Observed) → KeepsRestore (converge o)
unfolding converge
converge-KeepsRestore o =
    search
      (
        fields_rules, init_server-KeepsRestore, update_external_services-KeepsRestore,
        disconnect_clients-KeepsRestore, expire-KeepsRestore, reconcile-KeepsRestore,
      )
      depth 20

pub on_cluster_relation_changed-KeepsRestore :
    (o : Observed) → KeepsRestore (on_cluster_relation_changed o)
unfolding on_cluster_relation_changed
on_cluster_relation_changed-KeepsRestore o = search (fields_rules, converge-KeepsRestore) depth 12

pub on_secret_changed-KeepsRestore :
    (o : Observed) (label : Option String) (own_label : String)
    → KeepsRestore (on_secret_changed o label own_label)
unfolding on_secret_changed
on_secret_changed-KeepsRestore o none own_label = KeepsFields-done
on_secret_changed-KeepsRestore o (some label) own_label =
    search (fields_rules, on_cluster_relation_changed-KeepsRestore)
