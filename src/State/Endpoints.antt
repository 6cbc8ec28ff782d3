-- ===== src/State/Endpoints.antt =====
-- `endpoints`, `endpoints_external` and `clients` of src/core/cluster.py.
use Prim.Native.String.{◌++◌ as cat}
use zookeeper_k8s_operator.Base.{
  ℕ, String, Bool, true, false, ◌&&◌, List, [], ◌∷◌, map, if◌then◌else◌, Outcome, ok, raised,
  value_error, other_error, ◌>>=◌,
}
use zookeeper_k8s_operator.Text.{str, join, sorted, set_of}
use zookeeper_k8s_operator.Literals.{
  Substrate, vm, k8s, client_port, secure_client_port, ExposeExternal, disabled, nodeport,
  loadbalancer,
}
use zookeeper_k8s_operator.Databag.{get_or}
use zookeeper_k8s_operator.Models
use zookeeper_k8s_operator.Models.Server.{ZkServer, internal_address}
use zookeeper_k8s_operator.Models.App.{ZkCluster}
use zookeeper_k8s_operator.Models.Client.{ZkClient, relation_user}
use zookeeper_k8s_operator.State.{ClientRelation, ClusterState, cluster, servers}

abbrev pub port_of : ClusterState → ℕ
port_of s = if Models.App.tls (cluster s) then secure_client_port else client_port

-- `f(server)` for each server, where `f` may raise
node_hosts : ClusterState → ℕ → List ZkServer → Outcome (List String)
node_hosts s port [] = ok []
node_hosts s port (server ∷ rest) = s.answers.node_ip server >>= λ host.
    node_hosts s port rest >>= λ hosts. ok (cat host (cat ":" (str port)) ∷ hosts)

-- The property is retried three times when the Kubernetes API fails, and re-raises: the answers
-- here are those of the last attempt.
unfoldable pub endpoints_external : ClusterState → Outcome String
unfolding node_hosts servers sorted set_of str join
endpoints_external s = expose s.expose_external
  where
    auth : String
    auth = if Models.App.tls (cluster s) then "tls" else "plain"

    of_first : List ZkServer → Outcome String
    of_first [] = raised other_error
    of_first (server ∷ rest) =
        s.answers.loadbalancer_ip >>= λ host. ok (cat host (cat ":" (str (port_of s))))

    expose : ExposeExternal → Outcome String
    expose nodeport = s.answers.get_nodeport auth >>= λ port.
        node_hosts s port (servers s) >>= λ hosts. ok (join "," (sorted (set_of hosts)))
    expose loadbalancer = of_first (servers s)
    expose disabled = raised value_error

exposed : ExposeExternal → Bool
exposed disabled = false
exposed _ = true

is_k8s : Substrate → Bool
is_k8s vm = false
is_k8s k8s = true

unfoldable pub endpoints : ClusterState → String
unfolding exposed is_k8s endpoints_external servers sorted str join
endpoints s =
    if is_k8s s.substrate && exposed s.expose_external
    then (elim (endpoints_external s) [ ok text ↦ text | raised e ↦ "" ])
    else join "," (
        sorted
          (map (λ server. cat (internal_address server) (cat ":" (str (port_of s)))) (servers s)))

clients_of : ClusterState → List ClientRelation → List ZkClient
clients_of s [] = []
clients_of s (r ∷ rs) =
    let rest = clients_of s rs in
    if r.has_app
    then record {
      relation_id = r.id;
      relation_data = r.client_data;
      password = get_or (relation_user r.id) "" (Models.App.client_passwords (cluster s));
      endpoints = endpoints s;
      tls = if Models.App.tls (cluster s) then "enabled" else "disabled";
      uris_base = endpoints s;
    }
      ∷ rest
    else rest

unfoldable pub clients : ClusterState → List ZkClient
unfolding clients_of
clients s = clients_of s s.client_relations
