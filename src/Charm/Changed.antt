-- ===== src/Charm/Changed.antt =====
-- `_on_cluster_relation_changed` and `_on_secret_changed` of src/charm.py.
pub mod Guards
pub mod Keeps
use zookeeper_k8s_operator.Base.{
  String, Bool, true, false, not, ◌&&◌, ◌||◌, Option, none, some, [], ◌∷◌, str_eq, ◌==◌, length,
  if◌then◌else◌, Outcome, ok,
}
use zookeeper_k8s_operator.Base
use zookeeper_k8s_operator.Text.{truthy}
use zookeeper_k8s_operator.Literals.{
  container_not_connected, no_peer_relation, service_not_running, service_unhealthy, active,
}
use zookeeper_k8s_operator.Models
use zookeeper_k8s_operator.State.{ClusterState, cluster, unit_server, servers}
use zookeeper_k8s_operator.State.Endpoints.{endpoints}
use zookeeper_k8s_operator.Config.Changes.{config_changed, sets_differ}
use zookeeper_k8s_operator.Tls.Sans.{Sans, build_sans, get_current_sans}
use zookeeper_k8s_operator.Charm.{Observed, deferred, acquire_lock, set_version, expire_certificate}
use zookeeper_k8s_operator.Charm.Monad.{
  M, ◌>>=◌, ◌>>◌, done, pure, gets, lift, act, modify, set_status, update_unit,
}
use zookeeper_k8s_operator.Charm.Services.{update_external_services}
use zookeeper_k8s_operator.Charm.Startup.{init_server}
use zookeeper_k8s_operator.Charm.Clients.{disconnect_clients}
use zookeeper_k8s_operator.Charm.Reconcile.{update_quorum}

differs_from : Sans → Sans → Bool
differs_from current expected =
    sets_differ current.sans_ip expected.sans_ip || sets_differ current.sans_dns expected.sans_dns

-- whether the certificate's names are not the expected ones; without a certificate they are
unfoldable pub sans_changed : Observed → ClusterState → Outcome Bool
unfolding differs_from
sans_changed o s = Base.◌>>=◌ (get_current_sans o s) compared
  where
    compared : Option Sans → Outcome Bool
    compared none = ok false
    compared (some current) =
        Base.◌>>=◌ (build_sans o s) (λ expected. ok (differs_from current expected))

-- whether to ask for a restart; a configuration that changed is written on the way
unfoldable pub needs_restart : Observed → M Bool
unfolding config_changed
needs_restart o = do
  state ← gets (λ c. c.state)
  config ← gets (λ c. c.config)
  changed ← gets (λ c. (config_changed config state c.files).0)
  modify (λ c. record c { files = (config_changed config state c.files).1 })
  gets (λ c.
      (changed || Models.App.switching_encryption (cluster c.state))
      && (Models.Server.started (unit_server c.state) && o.idle))

-- the last tests of the handler, which set the unit's status
unfoldable pub report_health : Observed → M (Unit {0})
unfolding set_status
report_health o = do
  alive ← lift o.alive
  started ← gets (λ c. Models.Server.started (unit_server c.state))
  if not alive then set_status service_not_running else do
    healthy ← if started then lift o.healthy else pure true
    if not healthy then set_status service_unhealthy else do act set_version; set_status active

-- from the update of the quorum on
unfoldable pub reconcile : Observed → M (Unit {0})
unfolding update_quorum needs_restart report_health
reconcile o = do
  update_quorum o
  if o.event.departing_self then done else do
    restart ← needs_restart o
    if restart then act acquire_lock else done
    single ←
        gets (λ c.
          Models.App.switching_encryption (cluster c.state) && (length (servers c.state) == 1))
    if single then act deferred else done
    report_health o

-- the names of the certificate changed: it is given up, and a new one is asked for
unfoldable pub expire : M (Unit {0})
unfolding update_unit
expire = do
  cert ← gets (λ c. Models.Server.certificate (unit_server c.state))
  act (expire_certificate cert)
  update_unit (("certificate", "") ∷ [])

-- after the guards
unfoldable pub converge : Observed → M (Unit {0})
unfolding init_server update_external_services disconnect_clients sans_changed expire reconcile
    truthy
converge o = do
  started ← gets (λ c. Models.Server.started (unit_server c.state))
  if not started then init_server o else done
  update_external_services o
  known ← gets (λ c. truthy (endpoints c.state))
  if not known then (do disconnect_clients o; act deferred) else do
    state ← gets (λ c. c.state)
    changed ← lift (sans_changed o state)
    if changed then expire else reconcile o

unfoldable pub on_cluster_relation_changed : Observed → M (Unit {0})
unfolding converge set_status
on_cluster_relation_changed o =
    if not o.container_can_connect
    then (do set_status container_not_connected; act deferred)
    else do
      state ← gets (λ c. c.state)
      if not state.peer_relation
          then set_status no_peer_relation
          else if Models.App.is_restore_in_progress (cluster state)
          then done
          else if not o.idle
          then act deferred
          else converge o

-- `label` is the changed secret's, and `own_label` that of the application's extra secret.
unfoldable pub on_secret_changed : Observed → Option String → String → M (Unit {0})
unfolding on_cluster_relation_changed truthy
on_secret_changed o none own_label = done
on_secret_changed o (some label) own_label = if not (truthy label) then done else do
  state ← gets (λ c. c.state)
  if not state.peer_relation
      then done
      else if str_eq label own_label
      then on_cluster_relation_changed o
      else done
