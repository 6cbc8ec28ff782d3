-- ===== src/Charm/Startup.antt =====
-- `init_server` of src/charm.py.
pub mod Turn
pub mod Keeps
use zookeeper_k8s_operator.Base.{
  Bool, true, false, not, ◌&&◌, Option, none, some, [], ◌∷◌, str_eq, if◌then◌else◌,
}
use zookeeper_k8s_operator.Text.{truthy}
use zookeeper_k8s_operator.Literals.{no_passwords, not_all_related, not_unit_turn}
use zookeeper_k8s_operator.Databag.{Databag}
use zookeeper_k8s_operator.Models
use zookeeper_k8s_operator.Models.Server.{ZkServer, unit_name}
use zookeeper_k8s_operator.State.{ClusterState, cluster, unit_server, all_units_related}
use zookeeper_k8s_operator.State.Turns.{next_server, startup_servers}
use zookeeper_k8s_operator.Config.Changes.{
  set_zookeeper_myid, set_server_jvmflags, set_zookeeper_dynamic_properties,
  set_zookeeper_properties, set_jaas_config, set_client_jaas_config,
}
use zookeeper_k8s_operator.Charm.{Observed, start_service, set_version}
use zookeeper_k8s_operator.Charm.Monad.{
  M, ◌>>=◌, ◌>>◌, done, gets, lift, modify, act, set_files, set_status, update_unit,
}
use zookeeper_k8s_operator.Tls.{set_tls_files}

unfoldable pub no_credentials : ClusterState → Bool
no_credentials s = elim (Models.App.internal_user_credentials (cluster s)) [
  | [] ↦ true
  | x ∷ xs ↦ false
]

-- it is another unit's turn
unfoldable pub is_other : Option ZkServer → ZkServer → Bool
unfolding unit_name
is_other none own = false
is_other (some next) own = not (str_eq (unit_name next.unit) (unit_name own.unit))

-- TLS is probably completed
unfoldable pub tls_completed : ClusterState → Bool
unfolding truthy
tls_completed s =
    Models.App.tls (cluster s)
    && (truthy (Models.Server.certificate (unit_server s))
        && truthy (Models.Server.ca_cert (unit_server s)))

-- the databag fields of a unit that has just started
unfoldable pub started_fields : ClusterState → Databag
started_fields s =
    ("state", "started")
    ∷ ("unified", if Models.App.switching_encryption (cluster s) then "true" else "")
    ∷ ("quorum", Models.App.quorum (cluster s))
    ∷ []

-- what the function does once its three guards have passed
unfoldable pub start_server : Observed → M (Unit {0})
unfolding update_unit started_fields
start_server o = do
  state ← gets (λ c. c.state)
  config ← gets (λ c. c.config)
  set_files (set_zookeeper_myid state)
  set_files (set_server_jvmflags config)
  strings ← lift (startup_servers state)
  set_files (set_zookeeper_dynamic_properties strings)
  modify (λ c. record c { files = set_zookeeper_properties config state c.files })
  set_files (set_jaas_config state)
  set_files (set_client_jaas_config state)
  if tls_completed state then set_tls_files o else done
  act start_service
  act set_version
  update_unit (started_fields state)

unfoldable pub init_server : Observed → M (Unit {0})
unfolding set_status no_credentials is_other
init_server o = do
  state ← gets (λ c. c.state)
  if no_credentials state
      then set_status no_passwords
      else if not (all_units_related state)
      then set_status not_all_related
      else do
        next ← lift (next_server state)
        if is_other next (unit_server state) then set_status not_unit_turn else start_server o
