-- ===== src/Charm/Clients.antt =====
-- `disconnect_clients` and `update_client_data` of src/charm.py.
pub mod Keeps
pub mod Gate
use zookeeper_k8s_operator.Base.{String, Bool, not, ◌||◌, List, [], ◌∷◌, if◌then◌else◌}
use zookeeper_k8s_operator.Text.{str_in, truthy, join}
use zookeeper_k8s_operator.Literals.{is_active}
use zookeeper_k8s_operator.Databag.{Databag}
use zookeeper_k8s_operator.Models.Client.{ZkClient, username, database, chroot, uris}
use zookeeper_k8s_operator.State.Endpoints.{clients}
use zookeeper_k8s_operator.State.Health.{ready}
use zookeeper_k8s_operator.Workload.{read, jaas_path}
use zookeeper_k8s_operator.Charm.{Observed, update_client}
use zookeeper_k8s_operator.Charm.Monad.{M, ◌>>=◌, ◌>>◌, done, gets, act, set_status}

disconnect_all : List ZkClient → M (Unit {0})
disconnect_all [] = done
disconnect_all (client ∷ rest) =
    act (update_client client.relation_id (("endpoints", "") ∷ [])) >> disconnect_all rest

unfoldable pub disconnect_clients : Observed → M (Unit {0})
unfolding disconnect_all
disconnect_clients o =
    if not o.is_leader
    then done
    else do all_clients ← gets (λ c. clients c.state); disconnect_all all_clients

-- the fields that a client application reads
unfoldable pub client_fields : ZkClient → Databag
unfolding username database chroot uris
client_fields client =
    ("endpoints", client.endpoints)
    ∷ ("tls", client.tls)
    ∷ ("username", username client)
    ∷ ("password", client.password)
    ∷ ("database", database client)
    ∷ ("chroot", chroot client)
    ∷ ("uris", uris client)
    ∷ []

-- the password is not set, or the server's JAAS file does not have it yet
unfoldable pub is_skipped : String → ZkClient → Bool
unfolding truthy str_in
is_skipped jaas client = not (truthy client.password) || not (str_in client.password jaas)

-- one round of the loop over the clients
unfoldable pub tell_client : String → ZkClient → M (Unit {0})
unfolding is_skipped client_fields
tell_client jaas client =
    if is_skipped jaas client
    then done
    else act (update_client client.relation_id (client_fields client))

unfoldable pub update_clients : String → List ZkClient → M (Unit {0})
unfolding tell_client
update_clients jaas [] = done
update_clients jaas (client ∷ rest) = tell_client jaas client >> update_clients jaas rest

unfoldable pub update_client_data : Observed → M (Unit {0})
unfolding set_status update_clients join read
update_client_data o = if not o.is_leader then done else do
  key ← gets (λ c. ready c.state)
  set_status key
  status ← gets (λ c. c.status)
  if not (is_active status) then done else do
    all_clients ← gets (λ c. clients c.state)
    jaas ← gets (λ c. join "" (read jaas_path c.files))
    update_clients jaas all_clients
