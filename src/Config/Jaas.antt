-- ===== src/Config/Jaas.antt =====
-- The JAAS files: `jaas_users`, `jaas_config` and `client_jaas_config` of src/managers/config.py.
pub mod Dedent
use Prim.Native.Nat.{min}
use Prim.Native.Char.{code}
use Prim.Native.String.{◌++◌ as cat}
use zookeeper_k8s_operator.Base.{
  ℕ, zero, suc, String, ◌≡◌, refl, Option, none, some, List, [], ◌∷◌, map, ◌==◌, if◌then◌else◌,
}
use zookeeper_k8s_operator.Text.{truthy, split, join, strip}
use zookeeper_k8s_operator.Databag.{get_or}
use zookeeper_k8s_operator.Models
use zookeeper_k8s_operator.Models.Client.{ZkClient}
use zookeeper_k8s_operator.State.{ClusterState, cluster}
use zookeeper_k8s_operator.State.Endpoints.{clients}

-- the number of leading spaces
margin : String → ℕ
margin String.[] = 0
margin (String.◌∷◌ c s) = let rest = margin s in if code c == 32 then suc rest else 0

drop_chars : ℕ → String → String
drop_chars zero s = s
drop_chars (suc n) String.[] = ""
drop_chars (suc n) (String.◌∷◌ c s) = drop_chars n s

-- the margin that all lines share which are not blank
common_margin : List String → Option ℕ
unfolding margin strip truthy
common_margin [] = none
common_margin (x ∷ xs) =
    let rest = common_margin xs in
    if truthy (strip x)
    then (elim rest [ none ↦ some (margin x) | some n ↦ some (min (margin x) n) ])
    else rest

dedent_line : ℕ → String → String
unfolding drop_chars strip truthy
dedent_line n s = if truthy (strip s) then drop_chars n s else ""

-- textwrap.dedent, for text that is indented by spaces
unfoldable pub dedent : String → String
unfolding split join common_margin dedent_line
dedent s =
    let rows = split 10 s in
    elim (common_margin rows) [
      | none ↦ join "\n" (map (dedent_line 0) rows)
      | some n ↦ join "\n" (map (dedent_line n) rows)
    ]

users_of : List ZkClient → List String
unfolding truthy
users_of [] = []
users_of (client ∷ rest) =
    let users = users_of rest in
    if truthy client.password
    then cat "user_" (cat (Models.Client.username client) (cat "=\"" (cat client.password "\"")))
      ∷ users
    else users

unfoldable pub jaas_users : ClusterState → List String
unfolding users_of
jaas_users s = users_of (clients s)

password_of : String → ClusterState → String
unfolding get_or
password_of user s = get_or user "" (Models.App.internal_user_credentials (cluster s))

-- the lines after the first one, which is empty
unfoldable pub jaas_rows : ClusterState → List String
unfolding join jaas_users password_of
jaas_rows s =
    "            QuorumServer {"
    ∷ "                org.apache.zookeeper.server.auth.DigestLoginModule required"
    ∷ cat "                user_sync=\"" (cat (password_of "sync" s) "\";")
    ∷ "            };"
    ∷ ""
    ∷ "            QuorumLearner {"
    ∷ "                org.apache.zookeeper.server.auth.DigestLoginModule required"
    ∷ "                username=\"sync\""
    ∷ cat "                password=\"" (cat (password_of "sync" s) "\";")
    ∷ "            };"
    ∷ ""
    ∷ "            Server {"
    ∷ "                org.apache.zookeeper.server.auth.DigestLoginModule required"
    ∷ cat "                " (join "\n" (jaas_users s))
    ∷ cat "                user_super=\"" (cat (password_of "super" s) "\";")
    ∷ "            };"
    ∷ "        "
    ∷ []

unfoldable pub jaas_config : ClusterState → String
unfolding dedent join jaas_rows
jaas_config s = dedent (join "\n" ("" ∷ jaas_rows s))

unfoldable pub client_jaas_config : ClusterState → String
unfolding dedent join password_of
client_jaas_config s = dedent (
    join "\n" (
      ""
      ∷ "            Client {"
      ∷ "                org.apache.zookeeper.server.auth.DigestLoginModule required"
      ∷ "                username=\"super\""
      ∷ cat "                password=\"" (cat (password_of "super" s) "\";")
      ∷ "            };"
      ∷ "            "
      ∷ []))

dedent_example : dedent "\n  a\n    b\n " ≡ "\na\n  b\n"
unfolding dedent
dedent_example = refl
