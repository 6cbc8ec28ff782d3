-- ===== src/State/Turns.antt =====
-- Which server starts next: src/core/cluster.py, from `lowest_unit_id` to `startup_servers`.
pub mod Search
pub mod Lowest
pub mod Agreement
pub mod Tests
use Prim.Native.Nat.{min, max}
use zookeeper_k8s_operator.Base.{
  ℕ, ◌+◌, String, Bool, false, not, ◌&&◌, Option, none, some, List, [], ◌∷◌, ◌++◌, map, ◌==◌,
  if◌then◌else◌, keep, first, any, Outcome, ok, raised, value_error, ◌>>=◌,
}
use zookeeper_k8s_operator.Text.{join, replace, set_of}
use zookeeper_k8s_operator.Models
use zookeeper_k8s_operator.Models.Server.{ZkServer, unit_id, server_string}
use zookeeper_k8s_operator.Models.App.{ZkCluster}
use zookeeper_k8s_operator.State.{
  ClusterState, cluster, unit_server, servers, all_units_related, all_servers_added,
}

-- min and max of a list, which raise on an empty one
pub min_of : ℕ → List ℕ → ℕ
min_of a [] = a
min_of a (x ∷ xs) = min a (min_of x xs)

max_of : ℕ → List ℕ → ℕ
max_of a [] = a
max_of a (x ∷ xs) = max a (max_of x xs)

unfoldable pub minimum : List ℕ → Outcome ℕ
unfolding min_of
minimum [] = raised value_error
minimum (x ∷ xs) = ok (min_of x xs)

unfoldable pub maximum : List ℕ → Option ℕ
unfolding max_of
maximum [] = none
maximum (x ∷ xs) = some (max_of x xs)

-- `ok none` is Python's None
unfoldable pub lowest_unit_id : ClusterState → Outcome (Option ℕ)
unfolding all_units_related servers minimum
lowest_unit_id s =
    if all_units_related s
    then (minimum (map unit_id (servers s)) >>= λ n. ok (some n))
    else ok none

unfoldable pub has_id : Option ℕ → ZkServer → Bool
has_id none server = false
has_id (some n) server = unit_id server == n

-- The loop's test; the property `lowest_unit_id` has one value throughout.
unfoldable pub init_leader : ClusterState → Outcome (Option ZkServer)
unfolding has_id
init_leader s =
    if s.peer_relation
    then (lowest_unit_id s >>= λ lowest. ok (
        first
          (λ server.
            has_id lowest server
            && not (any (◌==◌ (unit_id server)) (Models.App.quorum_unit_ids (cluster s))))
          (servers s)))
    else ok none

-- `server.unit_id == max(ids) + 1`, for ids that are not empty
unfoldable pub follows : List ℕ → ZkServer → Bool
unfolding maximum
follows ids server = elim (maximum ids) [ none ↦ false | some m ↦ unit_id server == m + 1 ]

unfoldable pub next_server : ClusterState → Outcome (Option ZkServer)
unfolding follows
next_server s = lowest_unit_id s >>= with_lowest
  where
    with_leader : Option ZkServer → Outcome (Option ZkServer)
    with_leader (some leader) = ok (some leader)
    with_leader none =
        if all_servers_added s
        then ok (some (unit_server s))
        else ok (first (follows (Models.App.quorum_unit_ids (cluster s))) (servers s))

    with_lowest : Option ℕ → Outcome (Option ZkServer)
    with_lowest none = ok none
    with_lowest (some n) = if s.peer_relation then init_leader s >>= with_leader else ok none

-- The strings of a set are joined in an arbitrary order: that of the list.
unfoldable pub startup_servers : ClusterState → Outcome String
unfolding servers set_of join replace
startup_servers s = if s.peer_relation then init_leader s >>= strings else ok ""
  where
    is_member : ZkServer → Bool
    is_member server = any (◌==◌ (unit_id server)) (Models.App.added_unit_ids (cluster s))

    own : String
    own = replace "participant" "observer" (server_string (unit_server s))

    strings : Option ZkServer → Outcome String
    strings (some leader) = ok (server_string leader)
    strings none =
        ok (join "\n" (set_of (map server_string (keep is_member (servers s)) ++ (own ∷ []))))
