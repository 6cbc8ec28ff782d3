-- ===== src/Charm/Reconcile.antt =====
-- `update_quorum` of src/charm.py.
pub mod Switch
pub mod Keeps
use zookeeper_k8s_operator.Base.{not, ◌||◌, Option, none, some, [], ◌∷◌, if◌then◌else◌}
use zookeeper_k8s_operator.Text.{str}
use zookeeper_k8s_operator.Literals.{is_active}
use zookeeper_k8s_operator.Models
use zookeeper_k8s_operator.Models.Server.{ZkServer, unit_id}
use zookeeper_k8s_operator.State.{cluster}
use zookeeper_k8s_operator.State.Turns.{init_leader}
use zookeeper_k8s_operator.State.Health.{
  stale_quorum?, healthy, stable, all_units_unified, all_units_quorum,
}
use zookeeper_k8s_operator.Quorum.{update_cluster}
use zookeeper_k8s_operator.Charm.{Observed}
use zookeeper_k8s_operator.Charm.Monad.{M, ◌>>=◌, ◌>>◌, done, gets, lift, set_status, update_app}
use zookeeper_k8s_operator.Charm.Clients.{update_client_data}

unfoldable pub mark_added : Option ZkServer → M (Unit {0})
unfolding update_app str
mark_added none = done
mark_added (some leader) =
    if Models.Server.started leader then update_app ((str (unit_id leader), "added") ∷ []) else done

-- the first unit is marked as added as soon as it has started
unfoldable pub add_init_leader : M (Unit {0})
unfolding mark_added
add_init_leader = do
  state ← gets (λ c. c.state)
  leader ← lift (init_leader state)
  mark_added leader

unfoldable pub reconfigure_quorum : Observed → M (Unit {0})
unfolding update_app update_cluster
reconfigure_quorum o = do
  state ← gets (λ c. c.state)
  if stale_quorum? state || (o.event.scale_event || healthy state)
      then (do updated_servers ← lift (update_cluster o.zk state); update_app updated_servers)
      else done

-- once every started unit runs with unified ports, the target encryption is set, and once every
-- unit runs that encryption, the switch is over
unfoldable pub finish_switch : M (Unit {0})
unfolding update_app
finish_switch = do
  state ← gets (λ c. c.state)
  if all_units_unified state
      then (do
        update_app (("quorum", if Models.App.tls (cluster state) then "ssl" else "non-ssl") ∷ [])
        after ← gets (λ c. c.state)
        if all_units_quorum after then update_app (("switching-encryption", "") ∷ []) else done)
      else done

unfoldable pub update_quorum : Observed → M (Unit {0})
unfolding add_init_leader reconfigure_quorum finish_switch set_status
update_quorum o = if not o.is_leader || o.event.departing_self then done else do
  add_init_leader
  reconfigure_quorum o
  key ← gets (λ c. stable c.state)
  set_status key
  status ← gets (λ c. c.status)
  if not (is_active status) then done else finish_switch >> update_client_data o
