-- ===== src/Tls/Sans.antt =====
-- The alternative names of a unit's certificate: `build_sans` and `get_current_sans` of
-- src/managers/tls.py.
use zookeeper_k8s_operator.Base.{
  String, Bool, true, false, ◌&&◌, Option, none, some, List, [], ◌∷◌, ◌++◌, str_eq, first,
  if◌then◌else◌, Outcome, ok, raised, value_error, ◌>>=◌,
}
use zookeeper_k8s_operator.Text.{str_in, truthy, split, split_on, splitlines, strip, sorted}
use zookeeper_k8s_operator.Literals.{Substrate, vm, k8s}
use zookeeper_k8s_operator.Models.Server.{internal_address, certificate, unit_name}
use zookeeper_k8s_operator.State.{ClusterState, unit_server}
use zookeeper_k8s_operator.Charm.{Observed}

pub record Sans : Type 0 where
  pub sans_ip : List String
  pub sans_dns : List String

with_address : Outcome String → List String → List String
with_address (ok ip) ips = ips ++ (ip ∷ [])
with_address (raised e) ips = ips

-- what precedes the first dot
head_or_empty : List String → String
head_or_empty [] = ""
head_or_empty (x ∷ xs) = x

-- The retries change nothing here: the answers are those of the last attempt.
unfoldable pub build_sans : Observed → ClusterState → Outcome Sans
unfolding with_address head_or_empty internal_address unit_name split sorted truthy
build_sans o s = of_substrate s.substrate
  where
    address : String
    address = internal_address (unit_server s)

    of_substrate : Substrate → Outcome Sans
    of_substrate vm =
        ok (record { sans_ip = address ∷ []; sans_dns = unit_name s.unit ∷ o.fqdn ∷ [] })
    of_substrate k8s = s.answers.node_ip (unit_server s) >>= λ node.
        let ips = o.bind_address ∷ (if truthy node then node ∷ [] else []) in
        ok (record {
          sans_ip = sorted (with_address s.answers.loadbalancer_ip ips);
          sans_dns = sorted (head_or_empty (split b'.' address) ∷ address ∷ o.fqdn ∷ []);
        })

last_or : String → List String → String
last_or d [] = d
last_or d (x ∷ xs) = last_or x xs

-- the line at which the search stops, or the last one
sans_line : List String → String
unfolding last_or str_in
sans_line rows = elim (first (λ row. str_in "DNS" row && str_in "IP" row) rows) [
  | none ↦ last_or "" rows
  | some row ↦ row
]

add_item : String → String → Sans → Sans
unfolding strip
add_item kind value sans = record {
  sans_ip = if str_eq (strip kind) "IP Address" then value ∷ sans.sans_ip else sans.sans_ip;
  sans_dns = if str_eq (strip kind) "DNS" then value ∷ sans.sans_dns else sans.sans_dns;
}

-- `san_type, san_value = item.split(":")`
two_parts : List String → Outcome (String × String)
two_parts (kind ∷ value ∷ []) = ok (kind, value)
two_parts _ = raised value_error

-- The items are gathered from the right; both lists are sorted afterwards.
unfoldable pub parse_items : List String → Outcome Sans
unfolding two_parts split add_item
parse_items [] = ok (record { sans_ip = []; sans_dns = [] })
parse_items (item ∷ items) = two_parts (split b':' item) >>= λ parts.
    parse_items items >>= λ sans. ok (add_item parts.0 parts.1 sans)

is_empty : List String → Bool
is_empty [] = true
is_empty (x ∷ xs) = false

parse_sans : List String → Outcome (Option Sans)
unfolding is_empty parse_items sans_line split_on sorted
parse_sans rows =
    if is_empty rows
    then ok none
    else parse_items (split_on ", " (sans_line rows)) >>= λ sans.
        ok (some (record { sans_ip = sorted sans.sans_ip; sans_dns = sorted sans.sans_dns }))

unfoldable pub get_current_sans : Observed → ClusterState → Outcome (Option Sans)
unfolding truthy parse_sans splitlines
get_current_sans o s =
    if truthy (certificate (unit_server s))
    then (o.openssl_sans >>= λ output. parse_sans (splitlines output))
    else ok none
