-- ===== src/Charm/Tests.antt =====
-- The handlers at concrete inputs.
use zookeeper_k8s_operator.Base.{◌≡◌, ◌⊎◌, refl, true, false, [], ◌∷◌}
use zookeeper_k8s_operator.Databag.{get}
use zookeeper_k8s_operator.Models
use zookeeper_k8s_operator.State.{ClusterState, all_units_related, all_servers_added}
use zookeeper_k8s_operator.State.Health.{
  stale_quorum?, stable, healthy, all_units_unified, all_units_quorum,
}
use zookeeper_k8s_operator.Charm.Monad.{write_app}
use zookeeper_k8s_operator.Charm.Startup.{init_server, start_server}
use zookeeper_k8s_operator.Charm.Startup.Turn.{IsUntouched, MayStart, init_server-cases}
use zookeeper_k8s_operator.Charm.Changed.{converge, on_cluster_relation_changed}
use zookeeper_k8s_operator.Charm.Changed.Guards.{
  IsWaiting, MayConverge, on_cluster_relation_changed-cases,
}
use zookeeper_k8s_operator.Charm.Lifecycle.{on_restart}
use zookeeper_k8s_operator.Charm.Lifecycle.Unhealthy.{on_restart-unhealthy}
use zookeeper_k8s_operator.Charm.Reconcile.{finish_switch}
use zookeeper_k8s_operator.Charm.Reconcile.Switch.{target, finish_switch_lem}
use zookeeper_k8s_operator.Samples.{two_units, charm, observed, config}
use zookeeper_k8s_operator.Workload.{Files}
use zookeeper_k8s_operator.Config.Changes.{set_server_jvmflags}
use zookeeper_k8s_operator.Config.Changes.Environment.{environment, over}
use zookeeper_k8s_operator.Charm.Pebble.{
  container_name, layer, service_environment, get-set_server_jvmflags,
}

-- the passwords are set, and no unit has started
abbrev fresh : ClusterState
fresh = two_units (("super-password", "a") ∷ ("sync-password", "b") ∷ []) [] []

init_server-cases_example :
    IsUntouched (charm fresh) (init_server (observed true) (charm fresh)).1
    ⊎ (MayStart fresh
        × (init_server (observed true) (charm fresh) ≡ start_server (observed true) (charm fresh)))
init_server-cases_example = init_server-cases (observed true) (charm fresh)

-- a restore is under way
abbrev restoring : ClusterState
restoring = two_units (("0", "added") ∷ ("1", "added") ∷ ("id-to-restore", "b1") ∷ []) [] []

abbrev calm : ClusterState
calm = two_units (("0", "added") ∷ ("1", "added") ∷ []) [] []

on_restart-unhealthy_example : healthy (on_restart (observed true) (charm calm)).1.state ≡ false
unfolding stable all_units_related all_servers_added get Models.App.added_unit_ids
    Models.App.is_restore_in_progress stale_quorum?
on_restart-unhealthy_example = on_restart-unhealthy (observed true) (charm calm) refl refl

-- both units run with unified ports and the target encryption
abbrev switching : ClusterState
switching =
    two_units (("switching-encryption", "started") ∷ ("tls", "enabled") ∷ [])
      (("state", "started") ∷ ("unified", "true") ∷ ("quorum", "ssl") ∷ [])
      (("state", "started") ∷ ("unified", "true") ∷ ("quorum", "ssl") ∷ [])

finish_switch_lem_example :
    (all_units_unified switching ≡ true)
    × (all_units_quorum (write_app (("quorum", target switching) ∷ []) switching) ≡ true)
unfolding Models.App.switching_encryption finish_switch get all_units_unified all_units_related
    Models.Server.started Models.Server.unified all_units_quorum Models.Server.quorum
    Models.App.quorum Models.App.update Models.App.tls
finish_switch_lem_example = finish_switch_lem (charm switching) refl refl refl

on_cluster_relation_changed-cases_example :
    IsWaiting (charm restoring) (on_cluster_relation_changed (observed true) (charm restoring)).1
    ⊎ (MayConverge (observed true) (charm restoring)
        × (on_cluster_relation_changed (observed true) (charm restoring)
            ≡ converge (observed true) (charm restoring)))
on_cluster_relation_changed-cases_example =
    on_cluster_relation_changed-cases (observed true) (charm restoring)

abbrev environment_files : Files
environment_files = ("/etc/environment", "PATH=/usr/bin") ∷ []

get-set_server_jvmflags_example :
    get "PATH" (environment (set_server_jvmflags config environment_files))
    ≡ over
        (get "PATH" (service_environment container_name (layer config fresh)))
        (get "PATH" (environment environment_files))
get-set_server_jvmflags_example = get-set_server_jvmflags config fresh environment_files "PATH"
