-- ===== src/K8s/Tests.antt =====
-- Runs of src/managers/k8s.py, and the theorem at a concrete input.
use zookeeper_k8s_operator.Base.{
  String, ℕ, ◌≡◌, refl, none, some, [], ◌∷◌, ok, raised, api_error, if◌then◌else◌, str_eq,
}
use zookeeper_k8s_operator.K8s.{success, failure, get_nodeport}
use zookeeper_k8s_operator.K8s.Services.{
  K8sManager, Pod, ExposerService, exposer_service_name, exposer_ports, build_nodeport_service,
  build_loadbalancer_service, get_node,
}
use zookeeper_k8s_operator.K8s.Ports.{assigned, get_nodeport-build_nodeport_service}

abbrev manager : K8sManager
manager = record { pod_name = "zk-0"; namespace = "dev" }

abbrev pod : Pod
pod = record { owners = some ("zk" ∷ []); node_name = none }

abbrev service : ExposerService
service = record {
  name = "zk-exposer";
  namespace = "dev";
  owners = "zk" ∷ [];
  traffic_policy = "Local";
  kind = "NodePort";
  selector = ("app.kubernetes.io/name", "zk");
  ports = exposer_ports manager;
}

service_built : build_nodeport_service manager (λ name. success pod) ≡ ok service
unfolding build_nodeport_service
service_built = refl

no_pod : build_loadbalancer_service manager (λ name. failure 404 "not found") ≡ raised api_error
unfolding build_loadbalancer_service
no_pod = refl

forbidden_pod :
    get_node manager (λ name. failure 403 "forbidden") (λ name. success []) "zk-0"
    ≡ ok (failure 403 "forbidden")
unfolding get_node
forbidden_pod = refl

abbrev node_port_of : String → ℕ
node_port_of name = if str_eq name "zk-exposer-tls" then 30001 else 30000

get_nodeport-build_nodeport_service_example :
    (get_nodeport "plain" (some (assigned node_port_of service)) ≡ ok 30000)
    × (get_nodeport "tls" (some (assigned node_port_of service)) ≡ ok 30001)
unfolding exposer_service_name
get_nodeport-build_nodeport_service_example =
    get_nodeport-build_nodeport_service manager (λ name. success pod) node_port_of service_built
