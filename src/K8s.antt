-- ===== src/K8s.antt =====
-- `K8sManager` of src/managers/k8s.py: what it makes of the answers of the Kubernetes API.
pub mod Services
pub mod Ports
mod Tests
use zookeeper_k8s_operator.Base.{
  ℕ, String, ◌≡◌, refl, Bool, true, false, ◌&&◌, Option, none, some, List, [], ◌∷◌, str_eq, ◌==◌,
  any, first, if◌then◌else◌, Outcome, ok, raised, api_error, unbound_local, other_error,
}
use zookeeper_k8s_operator.Text.{str_in, ends_with}

-- An API call succeeds, or fails with a status code and a message.
pub data ApiAnswer {ℓ} (A : Type ℓ) : Type ℓ where
  success : A → ApiAnswer A
  failure : ℕ → String → ApiAnswer A

-- `apply_service`: what it raises; `ok` also where it only logs the failure
unfoldable pub apply_service : ApiAnswer (Unit {0}) → Outcome (Unit {0})
unfolding str_in
apply_service (success x) = ok tt
apply_service (failure code message) =
    if code == 403
    then ok tt
    else if code == 422 && str_in "port is already allocated" message
    then ok tt
    else raised api_error

unfoldable pub remove_service : ApiAnswer (Unit {0}) → Outcome (Unit {0})
remove_service (success x) = ok tt
remove_service (failure code message) =
    if code == 403 then ok tt else if code == 404 then ok tt else raised api_error

-- A node's address: its type and its value.
pub record NodeAddress : Type 0 where
  pub kind : String
  pub address : String

is_wanted : NodeAddress → Bool
is_wanted a = any (str_eq a.kind) ("ExternalIP" ∷ "InternalIP" ∷ "Hostname" ∷ [])

-- the address of the first wanted kind; a node with no status or no addresses raises
addresses_ip : List NodeAddress → Outcome String
unfolding is_wanted
addresses_ip [] = raised other_error
addresses_ip (a ∷ rest) = elim (first is_wanted (a ∷ rest)) [
  | none ↦ ok ""
  | some found ↦ ok found.address
]

-- `get_node_ip`, given what `get_node` answers. After an error other than 403 the variable `node`
-- is read without ever being set.
unfoldable pub get_node_ip : ApiAnswer (List NodeAddress) → Outcome String
unfolding addresses_ip
get_node_ip (success addresses) = addresses_ip addresses
get_node_ip (failure code message) = if code == 403 then ok "" else raised unbound_local

pub record ServicePort : Type 0 where
  pub name : String
  pub node_port : ℕ

-- `none` is a service with no spec
unfoldable pub get_nodeport : String → Option (List ServicePort) → Outcome ℕ
unfolding ends_with
get_nodeport auth none = raised other_error
get_nodeport auth (some ports) = elim (first (λ port. ends_with port.name auth) ports) [
  | none ↦ raised other_error
  | some port ↦ ok port.node_port
]

has_ip : Option String → Bool
has_ip none = false
has_ip (some ip) = true

-- `none` is a service with no load balancer; an ingress may have no IP
unfoldable pub get_loadbalancer : Option (List (Option String)) → Outcome String
unfolding has_ip
get_loadbalancer none = raised other_error
get_loadbalancer (some ingress) = of_first (first has_ip ingress)
  where
    of_first : Option (Option String) → Outcome String
    of_first (some (some ip)) = ok ip
    of_first _ = raised other_error

tests :
    (get_node_ip (failure 404 "not found") ≡ raised unbound_local)
    × (get_nodeport "tls" (
          some (
            record { name = "zk-plain"; node_port = 1 }
            ∷ record { name = "zk-tls"; node_port = 2 }
            ∷ []))
        ≡ ok 2)
    × (get_loadbalancer (some (none ∷ some "10.0.0.1" ∷ [])) ≡ ok "10.0.0.1")
unfolding get_node_ip get_nodeport get_loadbalancer
tests = (refl, refl, refl)
