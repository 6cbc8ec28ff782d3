-- ===== src/Charm/Services.antt =====
-- `update_external_services` of src/charm.py.
pub mod Keeps
use zookeeper_k8s_operator.Base.{if◌then◌else◌, not}
use zookeeper_k8s_operator.Literals.{
  ExposeExternal, disabled, nodeport, loadbalancer, service_unavailable,
}
use zookeeper_k8s_operator.Charm.{Observed, remove_exposer, apply_nodeport, apply_loadbalancer}
use zookeeper_k8s_operator.Charm.Monad.{M, ◌>>=◌, ◌>>◌, done, gets, act, set_status}

expose : ExposeExternal → M (Unit {0})
unfolding set_status
expose disabled = act remove_exposer
expose nodeport = set_status service_unavailable >> act apply_nodeport
expose loadbalancer = set_status service_unavailable >> act apply_loadbalancer

-- The substrate is a constant of the program.
unfoldable pub update_external_services : Observed → M (Unit {0})
unfolding expose
update_external_services o =
    if not o.is_leader then done else do how ← gets (λ c. c.state.expose_external); expose how
