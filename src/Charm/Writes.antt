-- ===== src/Charm/Writes.antt =====
-- What a reader of the databags sees after a handler's writes.
use zookeeper_k8s_operator.Base.{◌≡◌, true, arith}
use zookeeper_k8s_operator.Databag
use zookeeper_k8s_operator.Databag.{Databag, get, get_or, or_default}
use zookeeper_k8s_operator.Models
use zookeeper_k8s_operator.Models.App.{update_keys}
use zookeeper_k8s_operator.State.{ClusterState, cluster, unit_server}
use zookeeper_k8s_operator.Charm.Monad.{write_unit, write_app}

module _ (items : Databag) (s : ClusterState) (related : s.peer_relation ≡ true) where
  pub unit_data-write :
      (unit_server (write_unit items s)).relation_data ≡ Databag.update items s.unit_data
  unfolding write_unit
  unit_data-write = ground (arith, related)

  pub app_data-write : (cluster (write_app items s)).relation_data ≡ update_keys items s.app_data
  unfolding write_app Models.App.update
  app_data-write = ground (arith, related)
