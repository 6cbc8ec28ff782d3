-- ===== src/State/Health/Stability.antt =====
-- When the cluster counts as stable, ready and healthy: src/core/cluster.py.
use zookeeper_k8s_operator.Base.{◌≡◌, ◌≢◌, ◌↔◌, true, false, arith}
use zookeeper_k8s_operator.Literals.{active, not_all_added}
use zookeeper_k8s_operator.Models
use zookeeper_k8s_operator.State.{ClusterState, cluster, all_units_related, all_servers_added}
use zookeeper_k8s_operator.State.Health.{
  stable, ready, stale_quorum?, all_units_quorum, all_units_unified,
}

-- The cluster is stable exactly when all units are related, all servers are in the quorum, and no
-- restore is under way.
pub stable-active_iff :
    (s : ClusterState)
    → (stable s ≡ active) ↔ (
        (all_units_related s ≡ true)
        × (all_servers_added s ≡ true)
        × (Models.App.is_restore_in_progress (cluster s) ≡ false))
unfolding stable stale_quorum?
stable-active_iff s = (λ h. ground arith, λ h. ground arith)

-- The status for servers that are not added is never reported: the stale quorum comes first.
pub stable-ne-not_all_added : (s : ClusterState) → stable s ≢ not_all_added
unfolding stable stale_quorum?
stable-ne-not_all_added s h = ground arith

-- The status `ready` is active exactly when every unit runs the cluster's encryption, no switch of encryption
-- is under way, some started unit runs without unified ports, and the cluster is stable.
pub ready-active_iff :
    (s : ClusterState)
    → (ready s ≡ active) ↔ (
        (all_units_quorum s ≡ true)
        × (Models.App.switching_encryption (cluster s) ≡ false)
        × (all_units_unified s ≡ false)
        × (stable s ≡ active))
unfolding ready
ready-active_iff s = (λ h. ground arith, λ h. ground arith)
