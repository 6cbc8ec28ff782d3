-- ===== src/Events/Backup/Tests.antt =====
-- The restore action on the leader, for a snapshot that the storage has.
use zookeeper_k8s_operator.Base.{◌≡◌, ◌⊎◌, refl, true, false, [], ◌∷◌}
use zookeeper_k8s_operator.Models
use zookeeper_k8s_operator.State.{ClusterState, cluster}
use zookeeper_k8s_operator.Charm.{Observed}
use zookeeper_k8s_operator.Events.Backup.{on_restore_action}
use zookeeper_k8s_operator.Events.Backup.Begin.{HasBegun, on_restore_action-cases}
use zookeeper_k8s_operator.Samples.{two_units, charm, observed}

abbrev idle : ClusterState
idle = two_units (("0", "added") ∷ ("1", "added") ∷ []) [] []

abbrev seen : Observed
seen = record (observed true) { loads_map = λ s. ("bucket", "b") ∷ [] }

on_restore_action-cases_example :
    ((on_restore_action seen "b1" true (charm idle)).1.state ≡ idle)
    ⊎ ((true ≡ true)
        × (true ≡ true)
        × (Models.App.is_restore_in_progress (cluster idle) ≡ false)
        × HasBegun "b1" idle (on_restore_action seen "b1" true (charm idle)).1.state)
on_restore_action-cases_example = on_restore_action-cases seen "b1" true (charm idle) refl
