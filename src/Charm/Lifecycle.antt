-- ===== src/Charm/Lifecycle.antt =====
-- `_on_install`, `_on_zookeeper_pebble_ready` and `_restart` of src/charm.py.
pub mod Unhealthy
pub mod Keeps
use Prim.Native.String.{◌++◌ as cat}
use zookeeper_k8s_operator.Base.{
  Bool, false, Error, model_error, retry_error, raised, String, not, ◌&&◌, ◌||◌, List, [], ◌∷◌,
  if◌then◌else◌,
}
use zookeeper_k8s_operator.Literals.{
  charm_users, waiting_status, container_not_connected, is_active,
}
use zookeeper_k8s_operator.Databag.{Databag}
use zookeeper_k8s_operator.Models
use zookeeper_k8s_operator.State.{ClusterState, cluster, unit_server}
use zookeeper_k8s_operator.State.Health.{stable}
use zookeeper_k8s_operator.Charm.{Observed, deferred, start_service, restart_service, set_version}
use zookeeper_k8s_operator.Charm.Monad.{
  M, ◌>>=◌, ◌>>◌, done, pure, lift, attempt, gets, act, modify, set_status, update_app, update_unit,
}
use zookeeper_k8s_operator.Charm.Services.{update_external_services}
use zookeeper_k8s_operator.Charm.Startup.{init_server, no_credentials}

create_passwords : Observed → List String → M (Unit {0})
unfolding update_app
create_passwords o [] = done
create_passwords o (user ∷ users) =
    update_app ((cat user "-password", o.fresh_password user) ∷ []) >> create_passwords o users

unfoldable pub on_install : Observed → M (Unit {0})
unfolding create_passwords update_app update_external_services no_credentials
on_install o = do
  state ← gets (λ c. c.state)
  if not state.peer_relation
      then (do modify (λ c. record c { status = waiting_status }); act deferred)
      else do
        if o.is_leader && no_credentials state then create_passwords o charm_users else done
        if o.is_leader then update_app (("quorum", "default - non-ssl") ∷ []) else done
        act set_version
        update_external_services o

-- an exception that means that the service is not up
not_up : Error → M Bool
not_up model_error = pure false
not_up retry_error = pure false
not_up e = lift (raised e)

unfoldable pub on_zookeeper_pebble_ready : Observed → M (Unit {0})
unfolding set_status init_server not_up
on_zookeeper_pebble_ready o = if not o.idle then done else do
  started ← gets (λ c. Models.Server.started (unit_server c.state))
  if not o.container_can_connect || not started
      then (do set_status container_not_connected; act deferred)
      else do healthy ← attempt (lift o.healthy) not_up; if healthy then done else init_server o

-- the databag fields of a unit that has just restarted
unfoldable pub restarted_fields : ClusterState → Databag
restarted_fields s =
    ("unified", if Models.App.switching_encryption (cluster s) then "true" else "")
    ∷ ("quorum", Models.App.quorum (cluster s))
    ∷ ("password-rotated", if Models.App.rotate_passwords (cluster s) then "true" else "")
    ∷ []

unfoldable pub on_restart : Observed → M (Unit {0})
unfolding set_status update_unit restarted_fields
on_restart o = do
  key ← gets (λ c. stable c.state)
  set_status key
  status ← gets (λ c. c.status)
  if not (is_active status) then act deferred else do
    act (if o.plan_is_current then restart_service else start_service)
    state ← gets (λ c. c.state)
    update_unit (restarted_fields state)
