-- ===== src/K8s/Services.antt =====
-- The services that expose the application: `build_nodeport_service` and `build_loadbalancer_service`
-- of src/managers/k8s.py, and the pods and nodes that they ask for.
use Prim.Native.String.{◌++◌}
use Prim.Native.Char.{code}
use zookeeper_k8s_operator.Base.{
  ℕ, String, ◌≡◌, refl, Option, none, some, List, [], ◌∷◌, ◌==◌, if◌then◌else◌, Outcome, ok, raised,
  ◌>>=◌, api_error, other_error,
}
use zookeeper_k8s_operator.Text.{truthy}
use zookeeper_k8s_operator.Literals.{client_port, secure_client_port}
use zookeeper_k8s_operator.K8s.{ApiAnswer, success, failure, NodeAddress}

-- What precedes the last `sep`, and nothing where there is none: s.rpartition(sep)[0].
unfoldable pub before_last : ℕ → String → Option String
before_last sep String.[] = none
before_last sep (String.◌∷◌ c s) =
    let rest = before_last sep s in
    elim rest [ some t ↦ some (String.◌∷◌ c t) | none ↦ if code c == sep then some "" else none ]

pub record K8sManager : Type 0 where
  pub pod_name : String
  pub namespace : String

unfoldable pub app_name : K8sManager → String
unfolding before_last
app_name m = elim (before_last b'-' m.pod_name) [ none ↦ "" | some name ↦ name ]

unfoldable pub exposer_service_name : K8sManager → String
unfolding app_name
exposer_service_name m = app_name m ++ "-exposer"

pub record PortSpec : Type 0 where
  pub protocol : String
  pub port : ℕ
  pub target_port : ℕ
  pub name : String

pub record ExposerService : Type 0 where
  pub name : String
  pub namespace : String
  pub owners : List String
  pub traffic_policy : String
  pub kind : String
  pub selector : String × String
  pub ports : List PortSpec

-- What the API says of a pod: its owners where it has metadata, and its node where it has one.
pub record Pod : Type 0 where
  pub owners : Option (List String)
  pub node_name : Option String

-- a failing call is an ApiError
unfoldable pub answered : {A : Type 0} → ApiAnswer A → Outcome A
answered (success a) = ok a
answered (failure code message) = raised api_error

unfoldable pub exposer_ports : K8sManager → List PortSpec
unfolding exposer_service_name
exposer_ports m =
    record {
      protocol = "TCP";
      port = client_port;
      target_port = client_port;
      name = exposer_service_name m ++ "-plain";
    }
    ∷ record {
      protocol = "TCP";
      port = secure_client_port;
      target_port = secure_client_port;
      name = exposer_service_name m ++ "-tls";
    }
    ∷ []

module _ (m : K8sManager) (get_pod : String → ApiAnswer Pod) where
  unfoldable pub build_service : String → Outcome ExposerService
  unfolding answered exposer_service_name app_name exposer_ports
  build_service kind = answered (get_pod (app_name m ++ "-0")) >>= λ pod. of_owners pod.owners
    where
      of_owners : Option (List String) → Outcome ExposerService
      of_owners none = raised other_error
      of_owners (some owners) = ok (record {
        name = exposer_service_name m;
        namespace = m.namespace;
        owners = owners;
        traffic_policy = "Local";
        kind = kind;
        selector = ("app.kubernetes.io/name", app_name m);
        ports = exposer_ports m;
      })

  unfoldable pub build_nodeport_service : Outcome ExposerService
  unfolding build_service
  build_nodeport_service = build_service "NodePort"

  unfoldable pub build_loadbalancer_service : Outcome ExposerService
  unfolding build_service
  build_loadbalancer_service = build_service "LoadBalancer"

  -- A pod with no node raises; a failing call is an ApiError, with its code and message.
  unfoldable pub get_node :
      (String → ApiAnswer (List NodeAddress)) → String → Outcome (ApiAnswer (List NodeAddress))
  unfolding truthy
  get_node node_of pod_name = of_pod (get_pod pod_name)
    where
      of_node : Option String → Outcome (ApiAnswer (List NodeAddress))
      of_node none = raised other_error
      of_node (some name) = if truthy name then ok (node_of name) else raised other_error

      of_pod : ApiAnswer Pod → Outcome (ApiAnswer (List NodeAddress))
      of_pod (success pod) = of_node pod.node_name
      of_pod (failure code message) = ok (failure code message)

app_name_example :
    app_name (record { pod_name = "zookeeper-k8s-2"; namespace = "dev" }) ≡ "zookeeper-k8s"
unfolding app_name
app_name_example = refl
