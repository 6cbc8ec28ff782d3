-- ===== src/Events/Hooks/Tests.antt =====
-- Hooks of a small application.
use zookeeper_k8s_operator.Base.{◌≡◌, refl, [], ◌∷◌, List}
use zookeeper_k8s_operator.State.{ClusterState}
use zookeeper_k8s_operator.Samples.{two_units, charm, observed}
use zookeeper_k8s_operator.Events.Hooks.{
  Call, cluster_handler, restart_handler, restore_dispatch_handler, pebble_ready_handler,
  upgrade_handler, cluster_relation_changed, upgrade_charm, observers, run,
}
use zookeeper_k8s_operator.Events.Hooks.Keeps.{in_restore_flow, SameRestore, run-SameRestore}
use zookeeper_k8s_operator.Base.{true, none}

abbrev unit : ClusterState
unit =
    two_units (("restore-instruction", "restore") ∷ [])
      (("state", "started") ∷ ("restore-progress", "stop") ∷ []) []

abbrev calls : List Call
calls = (observed true, restart_handler) ∷ (observed true, cluster_handler) ∷ []

run-SameRestore_example : SameRestore unit (run calls (charm unit)).1.state
unfolding in_restore_flow
run-SameRestore_example = run-SameRestore calls (charm unit) refl

-- the restore comes before the other handlers of a change of the relation, and the upgrade before the
-- start of the container
order :
    (observers cluster_relation_changed ≡ restore_dispatch_handler ∷ cluster_handler ∷ [])
    × (observers (upgrade_charm none) ≡ upgrade_handler none ∷ pebble_ready_handler ∷ [])
unfolding observers
order = (refl, refl)

-- the unit has stopped, and restores the snapshot now
abbrev stopped : ClusterState
stopped =
    two_units (("id-to-restore", "b1") ∷ ("restore-instruction", "restore") ∷ [])
      (("restore-progress", "stop") ∷ []) (("restore-progress", "restore") ∷ [])
