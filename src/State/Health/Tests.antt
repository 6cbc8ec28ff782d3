-- ===== src/State/Health/Tests.antt =====
-- The statuses of concrete clusters.
use zookeeper_k8s_operator.Base.{◌≡◌, ◌≢◌, ◌↔◌, true, false, [], ◌∷◌}
use zookeeper_k8s_operator.Literals.{active, not_all_added}
use zookeeper_k8s_operator.Models
use zookeeper_k8s_operator.State.{ClusterState, cluster, all_units_related, all_servers_added}
use zookeeper_k8s_operator.State.Health.{stable}
use zookeeper_k8s_operator.State.Health.Stability.{stable-active_iff, stable-ne-not_all_added}
use zookeeper_k8s_operator.Samples.{two_units}

abbrev calm : ClusterState
calm =
    two_units (("0", "added") ∷ ("1", "added") ∷ ("quorum", "ssl") ∷ []) (("quorum", "ssl") ∷ [])
      (("quorum", "ssl") ∷ [])

stable-active_iff_example : (stable calm ≡ active) ↔ (
    (all_units_related calm ≡ true)
    × (all_servers_added calm ≡ true)
    × (Models.App.is_restore_in_progress (cluster calm) ≡ false))
stable-active_iff_example = stable-active_iff calm

stable-ne-not_all_added_example : stable calm ≢ not_all_added
stable-ne-not_all_added_example = stable-ne-not_all_added calm
