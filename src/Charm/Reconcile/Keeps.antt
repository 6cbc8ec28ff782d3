-- ===== src/Charm/Reconcile/Keeps.antt =====
-- The update of the quorum and the fields of a restore: src/charm.py.
use zookeeper_k8s_operator.Base.{Option, none, some}
use zookeeper_k8s_operator.Models.Server.{ZkServer, started, unit_id}
use zookeeper_k8s_operator.Charm.{Observed}
use zookeeper_k8s_operator.Charm.Monad.{gets, update_app}
use zookeeper_k8s_operator.Charm.Monad.Restoring.{
  KeepsRestore, KeepsFields-of, KeepsFields-if, KeepsFields-done, KeepsFields-bind,
  KeepsFields-gets, KeepsFields-lift_bind, KeepsFields-update_app, is_apart-str, fields_rules,
}
use zookeeper_k8s_operator.Quorum.{update_cluster}
use zookeeper_k8s_operator.Quorum.Keys.{update_cluster-is_apart}
use zookeeper_k8s_operator.Charm.Clients.{update_client_data}
use zookeeper_k8s_operator.Charm.Clients.Keeps.{update_client_data-KeepsState}
use zookeeper_k8s_operator.Charm.Reconcile.{
  mark_added, add_init_leader, reconfigure_quorum, finish_switch, update_quorum,
}

pub update_client_data-KeepsRestore : (o : Observed) → KeepsRestore (update_client_data o)
update_client_data-KeepsRestore o =
    KeepsFields-of (update_client_data o) (update_client_data-KeepsState o)

mark_added-KeepsRestore : (leader : Option ZkServer) → KeepsRestore (mark_added leader)
unfolding mark_added
mark_added-KeepsRestore none = KeepsFields-done
mark_added-KeepsRestore (some leader) =
    KeepsFields-if (started leader) _ _
      (KeepsFields-update_app _ (is_apart-str (unit_id leader) "added")) KeepsFields-done

add_init_leader-KeepsRestore : KeepsRestore add_init_leader
unfolding add_init_leader
add_init_leader-KeepsRestore = search (fields_rules, mark_added-KeepsRestore)

finish_switch-KeepsRestore : KeepsRestore finish_switch
unfolding finish_switch
finish_switch-KeepsRestore = search (fields_rules, KeepsFields-update_app) depth 15

reconfigure_quorum-KeepsRestore : (o : Observed) → KeepsRestore (reconfigure_quorum o)
unfolding reconfigure_quorum
reconfigure_quorum-KeepsRestore o =
    KeepsFields-bind (gets (λ c. c.state)) _ (KeepsFields-gets (λ c. c.state)) (λ state.
      KeepsFields-if _ _ _
        (KeepsFields-lift_bind (update_cluster o.zk state) update_app
          (λ updated e. KeepsFields-update_app updated (update_cluster-is_apart o.zk state e)))
        KeepsFields-done)

pub update_quorum-KeepsRestore : (o : Observed) → KeepsRestore (update_quorum o)
unfolding update_quorum
update_quorum-KeepsRestore o =
    search
      (
        fields_rules, add_init_leader-KeepsRestore, reconfigure_quorum-KeepsRestore,
        finish_switch-KeepsRestore, update_client_data-KeepsRestore,
      )
      depth 20
