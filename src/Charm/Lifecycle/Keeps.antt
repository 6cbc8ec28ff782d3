-- ===== src/Charm/Lifecycle/Keeps.antt =====
-- Installation, start and restart, and the fields of a restore: src/charm.py.
use zookeeper_k8s_operator.Base.{◌≡◌, Error, arith}
use zookeeper_k8s_operator.Charm.{Charm, Observed}
use zookeeper_k8s_operator.Charm.Monad.{attempt, lift}
use zookeeper_k8s_operator.Charm.Monad.Restoring.{
  KeepsRestore, KeepsFields-update_app, KeepsFields-update_unit, fields_rules, KeepsFields-attempt,
  KeepsFields-lift, SameFields-same,
}
use zookeeper_k8s_operator.Charm.Startup.Keeps.{init_server-KeepsRestore}
use zookeeper_k8s_operator.Charm.Services.Keeps.{update_external_services-KeepsRestore}
use zookeeper_k8s_operator.Literals.{charm_users}
use zookeeper_k8s_operator.Charm.Lifecycle.{
  not_up, create_passwords, on_install, on_zookeeper_pebble_ready, restarted_fields, on_restart,
}

create_passwords-KeepsRestore : (o : Observed) → KeepsRestore (create_passwords o charm_users)
unfolding create_passwords
create_passwords-KeepsRestore o = search (fields_rules, KeepsFields-update_app)

pub on_install-KeepsRestore : (o : Observed) → KeepsRestore (on_install o)
unfolding on_install
on_install-KeepsRestore o =
    search
      (
        fields_rules, create_passwords-KeepsRestore, KeepsFields-update_app,
        update_external_services-KeepsRestore,
      )
      depth 15

not_up-KeepsRestore : (e : Error) → KeepsRestore (not_up e)
not_up-KeepsRestore e = record { at = λ c. SameFields-same (same e c) }
  where
    same : (e : Error) (c : Charm) → (not_up e c).1.state ≡ c.state
    same e c = unfold not_up in ground arith

health-KeepsRestore : (o : Observed) → KeepsRestore (attempt (lift o.healthy) not_up)
health-KeepsRestore o =
    KeepsFields-attempt (lift o.healthy) not_up (KeepsFields-lift o.healthy) not_up-KeepsRestore

pub on_zookeeper_pebble_ready-KeepsRestore :
    (o : Observed) → KeepsRestore (on_zookeeper_pebble_ready o)
unfolding on_zookeeper_pebble_ready
on_zookeeper_pebble_ready-KeepsRestore o =
    search (fields_rules, health-KeepsRestore, init_server-KeepsRestore) depth 15

pub on_restart-KeepsRestore : (o : Observed) → KeepsRestore (on_restart o)
unfolding on_restart restarted_fields
on_restart-KeepsRestore o = search (fields_rules, KeepsFields-update_unit) depth 15
