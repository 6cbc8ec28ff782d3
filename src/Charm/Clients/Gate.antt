-- ===== src/Charm/Clients/Gate.antt =====
-- When `update_client_data` of src/charm.py tells the clients anything.
use zookeeper_k8s_operator.Base.{◌≡◌, true, false}
use zookeeper_k8s_operator.Models
use zookeeper_k8s_operator.State.{ClusterState, cluster, all_units_related, all_servers_added}
use zookeeper_k8s_operator.State.Health.{all_units_quorum}
use zookeeper_k8s_operator.Charm.{Charm}

-- The cluster serves clients.
pub record IsServing (s : ClusterState) : Type 0 where
  pub related : all_units_related s ≡ true
  pub added : all_servers_added s ≡ true
  pub no_restore : Models.App.is_restore_in_progress (cluster s) ≡ false
  pub same_encryption : all_units_quorum s ≡ true
  pub no_switch : Models.App.switching_encryption (cluster s) ≡ false
