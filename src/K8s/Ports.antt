-- ===== src/K8s/Ports.antt =====
-- The ports of the exposing service, by their kind: src/managers/k8s.py.
use Prim.Native.String.{◌++◌}
use zookeeper_k8s_operator.Base.{ℕ, String, ◌≡◌, true, false, List, [], ◌∷◌, map, some, ok, arith}
use zookeeper_k8s_operator.Text.{ends_with}
use zookeeper_k8s_operator.Text.Suffix.{ends_with-append}
use zookeeper_k8s_operator.K8s.{ApiAnswer, ServicePort, get_nodeport}
use zookeeper_k8s_operator.K8s.Services.{
  K8sManager, Pod, ExposerService, exposer_service_name, build_nodeport_service, exposer_ports,
}

get_nodeport-first :
    (auth : String) (p : ServicePort) (ps : List ServicePort)
    → ends_with p.name auth ≡ true
    → get_nodeport auth (some (p ∷ ps)) ≡ ok p.node_port
unfolding get_nodeport
get_nodeport-first auth p ps h = ground (arith, h)

get_nodeport-second :
    (auth : String) (p q : ServicePort)
    → ends_with p.name auth ≡ false
    → ends_with q.name auth ≡ true
    → get_nodeport auth (some (p ∷ q ∷ [])) ≡ ok q.node_port
unfolding get_nodeport
get_nodeport-second auth p q h k = ground (arith, h, k)

-- the service as the cluster runs it: each port has been given a port of the nodes
unfoldable pub assigned : (String → ℕ) → ExposerService → List ServicePort
assigned node_port_of service =
    map (λ p. record { name = p.name; node_port = node_port_of p.name }) service.ports

-- Where the pod is found, the service is built, and once it runs, the port that is found for a kind of
-- authentication is the one that the cluster gave to the service's port of that kind.
pub get_nodeport-build_nodeport_service :
    (m : K8sManager) (get_pod : String → ApiAnswer Pod) (node_port_of : String → ℕ)
    {service : ExposerService}
    → build_nodeport_service m get_pod ≡ ok service
    → (get_nodeport "plain" (some (assigned node_port_of service))
        ≡ ok (node_port_of (exposer_service_name m ++ "-plain")))
      × (get_nodeport "tls" (some (assigned node_port_of service))
          ≡ ok (node_port_of (exposer_service_name m ++ "-tls")))
unfolding get_nodeport assigned exposer_ports
get_nodeport-build_nodeport_service m get_pod node_port_of {service} built =
    let name = exposer_service_name m in
    let port : String → ServicePort = λ n. record { name = n; node_port = node_port_of n } in
    let plain_plain : ends_with (name ++ "-plain") "plain" ≡ true =
      ends_with-append name "-plain" "plain" (omega arith) in
    let plain_tls : ends_with (name ++ "-plain") "tls" ≡ false =
      ends_with-append name "-plain" "tls" (omega arith) in
    let tls_tls : ends_with (name ++ "-tls") "tls" ≡ true =
      ends_with-append name "-tls" "tls" (omega arith) in
    rw (ports m get_pod built) (
      get_nodeport-first "plain" (port (name ++ "-plain")) (port (name ++ "-tls") ∷ []) plain_plain,
      get_nodeport-second "tls" (port (name ++ "-plain")) (port (name ++ "-tls")) plain_tls tls_tls,
    )
  where
    ports :
        (m : K8sManager) (get_pod : String → ApiAnswer Pod) {service : ExposerService}
        → build_nodeport_service m get_pod ≡ ok service
        → service.ports ≡ exposer_ports m
    ports m get_pod built = unfold build_nodeport_service in ground (arith, built)
