-- ===== src/Quorum.antt =====
-- `QuorumManager` of src/managers/quorum.py: the quorum's members and the clients' access rights.
pub mod Acls
pub mod Members
pub mod Keys
pub mod Notes
pub mod Ledger
mod Tests
use Prim.Native.Char.{Char, code}
use text.Mathlib.Text.{starts_with}
use zookeeper_k8s_operator.Base.{
  ℕ, zero, suc, ◌-◌, String, ◌≡◌, refl, Bool, true, false, not, ◌&&◌, ◌||◌, ◌>>=◌, Option, none,
  some, List, [], ◌∷◌, ◌++◌, map, str_eq, ◌==◌, leb, if◌then◌else◌, length, keep, any, Outcome, ok,
  raised, Error, other_error, quorum_leader_not_found, members_syncing, member_not_ready,
  kazoo_timeout, bad_arguments, connection_closed,
}
use zookeeper_k8s_operator.Text.{str, int, sorted, set_of}
use zookeeper_k8s_operator.Databag.{Databag, insert}
use zookeeper_k8s_operator.Literals.{status_truthy}
use zookeeper_k8s_operator.Models.Server.{server_string}
use zookeeper_k8s_operator.State.{ClusterState, servers, started_servers}
use zookeeper_k8s_operator.State.Health.{stable}
use zookeeper_k8s_operator.Charm.{ZkAdmin}

-- the digits at the head of a text
digits_of : String → String
digits_of String.[] = ""
digits_of (String.◌∷◌ c s) =
    let rest = digits_of s in
    if leb b'0' (code c) && leb (code c) b'9' then String.◌∷◌ c rest else ""

drop_chars : ℕ → String → String
drop_chars zero s = s
drop_chars (suc n) String.[] = ""
drop_chars (suc n) (String.◌∷◌ c s) = drop_chars n s

-- The number of the first match of `server.([0-9]+)`, where the dot is any character; `none` is
-- an IndexError.
unfoldable pub server_number : String → Option ℕ
unfolding digits_of drop_chars int
server_number String.[] = none
server_number (String.◌∷◌ c s) =
    let rest = server_number s in
    if starts_with (String.◌∷◌ c s) "server"
    then (elim (int (digits_of (drop_chars 6 s))) [ none ↦ rest | some n ↦ some n ])
    else rest

-- str(n - 1)
unfoldable pub unit_key : ℕ → String
unfolding str
unit_key n = if n == 0 then "-1" else str (n - 1)

unfoldable pub str_mem : String → List String → Bool
str_mem s l = any (str_eq s) l

-- `n` is the number in the string
unfoldable pub mark_server : List String → List String → String → Databag → ℕ → Databag
unfolding unit_key insert str_mem
mark_server added removed s updated n =
    if str_mem s added
    then insert (unit_key n) "added" updated
    else if str_mem s removed
    then insert (unit_key n) "removed" updated
    else updated

-- One round of the loop; a string without a number is an IndexError.
unfoldable pub note_server : List String → List String → String → Databag → Outcome Databag
unfolding server_number mark_server
note_server added removed s updated = elim (server_number s) [
  | none ↦ raised other_error
  | some n ↦ ok (mark_server added removed s updated n)
]

unfoldable pub note_servers : List String → List String → List String → Databag → Outcome Databag
unfolding note_server
note_servers added removed [] updated = ok updated
note_servers added removed (s ∷ rest) updated =
    note_server added removed s updated >>= note_servers added removed rest

unfoldable pub get_updated_servers : List String → List String → Outcome Databag
unfolding note_servers
get_updated_servers added removed = note_servers added removed (added ++ removed) []

-- xs - ys, for sets of texts
unfoldable pub set_minus : List String → List String → List String
unfolding str_mem
set_minus xs ys = keep (λ x. not (str_mem x ys)) xs

-- the exceptions that the update catches
unfoldable pub is_not_ready : Error → Bool
is_not_ready members_syncing = true
is_not_ready member_not_ready = true
is_not_ready quorum_leader_not_found = true
is_not_ready kazoo_timeout = true
is_not_ready bad_arguments = true
is_not_ready _ = false

unfoldable pub active_server_strings : ClusterState → List String
unfolding set_of
active_server_strings s = set_of (map server_string (started_servers s))

-- What the quorum was changed to, beside the mapping for the application's databag.
pub record Reconfigured : Type 0 where
  pub members : List String
  pub updated : Databag

-- The `try` block. The removals are in the order of a set, which is arbitrary.
unfoldable pub reconfigure : ZkAdmin → List String → Outcome Reconfigured
unfolding set_minus get_updated_servers sorted
reconfigure zk wanted = do
  present ← zk.server_members
  let servers_to_remove = set_minus present wanted
  left ← zk.remove present servers_to_remove
  let servers_to_add = sorted (set_minus wanted left)
  members ← zk.add left servers_to_add
  updated ← get_updated_servers servers_to_add servers_to_remove
  ok (record { members = members; updated = updated })

unfoldable pub update_cluster : ZkAdmin → ClusterState → Outcome Databag
unfolding reconfigure active_server_strings is_not_ready
update_cluster zk s = elim (reconfigure zk (active_server_strings s)) [
  | ok r ↦ ok r.updated
  | raised e ↦ if is_not_ready e then ok [] else raised e
]

pub record SyncStatus : Type 0 where
  pub passed : Bool
  pub cause : String

abbrev failed : String → SyncStatus
failed why = record { passed = false; cause = why }

-- the `try` block of `is_syncing`
sync_checks : ZkAdmin → ClusterState → Outcome SyncStatus
unfolding status_truthy
sync_checks zk s = zk.members_broadcasting >>= connected
  where
    not_connected : Outcome SyncStatus
    not_connected =
        ok (failed "Not all application units are connected and broadcasting in the quorum")

    synced : Bool → Outcome SyncStatus
    synced true = ok (failed "Some quorum members are still syncing data")
    synced false =
        if not (status_truthy (stable s))
        then ok (failed "Charm has not finished initialising")
        else ok (record { passed = true; cause = "" })

    connected : Bool → Outcome SyncStatus
    connected false = not_connected
    connected true = zk.server_members >>= λ members.
        (if length members == length (servers s)
          then zk.members_syncing >>= synced
          else not_connected)

error_cause : Error → String
error_cause quorum_leader_not_found = "Quorum leader not found"
error_cause connection_closed = "Unable to connect to the cluster"
error_cause _ = "Unknown error"

unfoldable pub is_syncing : ZkAdmin → ClusterState → SyncStatus
unfolding sync_checks error_cause
is_syncing zk s = elim (sync_checks zk s) [ ok status ↦ status | raised e ↦ failed (error_cause e) ]

-- The host's names are what the sockets answer.
unfoldable get_hostname_mapping : String → String → String → Databag
get_hostname_mapping hostname fqdn ip = ("hostname", hostname) ∷ ("fqdn", fqdn) ∷ ("ip", ip) ∷ []

tests :
    (server_number "server.12=host:2888" ≡ some 12)
    × (get_updated_servers ("server.1=a" ∷ []) ("server.3=b" ∷ [])
        ≡ ok (("0", "added") ∷ ("2", "removed") ∷ []))
unfolding server_number get_updated_servers
tests = (refl, refl)
