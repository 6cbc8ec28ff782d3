-- ===== src/Models/Server.antt =====
-- `ZKServer` of src/core/models.py: a unit and its databag.
pub mod Name
use Prim.Native.String.{◌++◌}
use zookeeper_k8s_operator.Base.{
  ℕ, ◌+◌, String, ◌≡◌, refl, Bool, true, false, Option, none, some, List, [], ◌∷◌, str_eq,
  if◌then◌else◌, get_elem?,
}
use zookeeper_k8s_operator.Text.{str, int, split, truthy}
use zookeeper_k8s_operator.Literals.{
  Substrate, vm, k8s, RestoreStep, step_of_value, server_port, election_port, client_port,
}
use zookeeper_k8s_operator.Databag.{Databag, get, get_or}

-- A Juju unit, which Juju names `<application>/<number>`.
pub record JujuUnit : Type 0 where
  pub app : String
  pub number : ℕ

unfoldable pub unit_name : JujuUnit → String
unfolding str
unit_name u = u.app ++ ("/" ++ str u.number)

pub record ZkServer : Type 0 where
  pub unit : JujuUnit
  pub substrate : Substrate
  pub relation_data : Databag

-- int(name.split("/")[1]); `none` is an exception
unfoldable pub parse_unit_id : String → Option ℕ
unfolding split int
parse_unit_id name = elim (get_elem? (split b'/' name) 1) [ none ↦ none | some s ↦ int s ]

-- The number in the unit's name.
abbrev pub unit_id : ZkServer → ℕ
unit_id s = s.unit.number

unfoldable pub started : ZkServer → Bool
unfolding get
started s = elim (get "state" s.relation_data) [ none ↦ false | some v ↦ str_eq v "started" ]

unfoldable pub password_rotated : ZkServer → Bool
unfolding get_or truthy
password_rotated s = truthy (get_or "password-rotated" "" s.relation_data)

unfoldable pub hostname : ZkServer → String
unfolding get_or
hostname s = get_or "hostname" "" s.relation_data

unfoldable pub fqdn : ZkServer → String
unfolding get_or
fqdn s = get_or "fqdn" "" s.relation_data

unfoldable pub ip : ZkServer → String
unfolding get_or
ip s = get_or "ip" "" s.relation_data

unfoldable pub server_id : ZkServer → ℕ
server_id s = unit_id s + 1

-- the loop over the keys, which ends at the first non-empty value
first_address : List String → Databag → String
unfolding get_or truthy
first_address [] d = ""
first_address (key ∷ []) d = get_or key "" d
first_address (key ∷ k ∷ keys) d =
    let rest = first_address (k ∷ keys) d in
    let host = get_or key "" d in if truthy host then host else rest

unfoldable pub internal_address : ZkServer → String
unfolding first_address str
internal_address s = address s.substrate
  where
    address : Substrate → String
    address vm = first_address ("ip" ∷ "hostname" ∷ "private-address" ∷ []) s.relation_data
    address k8s = s.unit.app ++ ("-" ++ (str (unit_id s) ++ ("." ++ (s.unit.app ++ "-endpoints"))))

unfoldable pub server_string : ZkServer → String
unfolding server_id internal_address str
server_string s =
    "server."
    ++ (str (server_id s)
        ++ ("="
            ++ (internal_address s
                ++ (":"
                    ++ (str server_port
                        ++ (":"
                            ++ (str election_port
                                ++ (":participant;0.0.0.0:" ++ str client_port))))))))

unfoldable pub quorum : ZkServer → String
unfolding get_or
quorum s = get_or "quorum" "" s.relation_data

unfoldable pub unified : ZkServer → Bool
unfolding get_or truthy
unified s = truthy (get_or "unified" "" s.relation_data)

unfoldable pub private_key : ZkServer → String
unfolding get_or
private_key s = get_or "private-key" "" s.relation_data

unfoldable pub keystore_password : ZkServer → String
unfolding get_or
keystore_password s = get_or "keystore-password" "" s.relation_data

unfoldable pub truststore_password : ZkServer → String
unfolding get_or
truststore_password s = get_or "truststore-password" "" s.relation_data

unfoldable pub csr : ZkServer → String
unfolding get_or
csr s = get_or "csr" "" s.relation_data

unfoldable pub certificate : ZkServer → String
unfolding get_or
certificate s = get_or "certificate" "" s.relation_data

unfoldable pub ca : ZkServer → String
unfolding get_or
ca s = get_or "ca" "" s.relation_data

unfoldable pub ca_cert : ZkServer → String
unfolding get_or ca
ca_cert s = get_or "ca-cert" (ca s) s.relation_data

-- `none` is a ValueError
unfoldable pub restore_progress : ZkServer → Option RestoreStep
unfolding get_or step_of_value
restore_progress s = step_of_value (get_or "restore-progress" "" s.relation_data)

abbrev sample : ZkServer
sample = record {
  unit = record { app = "zookeeper-k8s"; number = 2 };
  substrate = k8s;
  relation_data = ("state", "started") ∷ [];
}

tests :
    (server_string sample
      ≡ "server.3=zookeeper-k8s-2.zookeeper-k8s-endpoints:2888:3888:participant;0.0.0.0:2181")
    × (parse_unit_id (unit_name sample.unit) ≡ some 2)
    × (started sample ≡ true)
unfolding server_string parse_unit_id unit_name started
tests = (refl, refl, refl)
