-- ===== src/Charm/Services/Keeps.antt =====
-- The services and the fields of a restore: `update_external_services` of src/charm.py.
use zookeeper_k8s_operator.Literals.{ExposeExternal, disabled, nodeport, loadbalancer}
use zookeeper_k8s_operator.Charm.{Observed}
use zookeeper_k8s_operator.Charm.Monad.Restoring.{KeepsRestore, fields_rules}
use zookeeper_k8s_operator.Charm.Services.{expose, update_external_services}

expose-KeepsRestore : (how : ExposeExternal) → KeepsRestore (expose how)
unfolding expose
expose-KeepsRestore disabled = search fields_rules
expose-KeepsRestore nodeport = search fields_rules
expose-KeepsRestore loadbalancer = search fields_rules

pub update_external_services-KeepsRestore :
    (o : Observed) → KeepsRestore (update_external_services o)
unfolding update_external_services
update_external_services-KeepsRestore o = search (fields_rules, expose-KeepsRestore)
