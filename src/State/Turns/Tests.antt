-- ===== src/State/Turns/Tests.antt =====
-- Whose turn it is, seen by two units.
use zookeeper_k8s_operator.Base.{true, false, ok, some, any, ◌==◌, ◌≤◌}
use zookeeper_k8s_operator.State.{all_units_related}
use zookeeper_k8s_operator.Models.App.{quorum_unit_ids}
use zookeeper_k8s_operator.State.Turns.Agreement.{quorum_ids}
use zookeeper_k8s_operator.State.Turns.Lowest.{init_leader-lowest}
use zookeeper_k8s_operator.Base.{◌≡◌, refl, [], ◌∷◌, arith, ℕ}
use zookeeper_k8s_operator.Databag.{Databag}
use zookeeper_k8s_operator.State.{ClusterState, all_servers_added, servers}
use zookeeper_k8s_operator.Models.App.{added_unit_ids}
use zookeeper_k8s_operator.State.Turns.{next_server, lowest_unit_id, init_leader}
use zookeeper_k8s_operator.State.Turns.Search.{contains}
use zookeeper_k8s_operator.State.Turns.Agreement.{SameView, ids, next_number, next_server_agrees}
use zookeeper_k8s_operator.Samples.{two_units, server, unit}

abbrev app : Databag
app = ("0", "added") ∷ []

-- the first unit has started, and the second one waits
abbrev first_view : ClusterState
first_view = two_units app (("state", "started") ∷ []) []

abbrev second_view : ClusterState
second_view = record first_view {
  unit = unit 1;
  unit_data = [];
  peers = server 0 (("state", "started") ∷ []) ∷ [];
}

same_numbers : (n : ℕ) → contains n (ids first_view) ≡ contains n (ids second_view)
unfolding servers
same_numbers n = ground arith

views : SameView first_view second_view
unfolding servers
views = record {
  related_s = refl;
  related_t = refl;
  app = refl;
  numbers = same_numbers;
  lengths = refl;
  planned = refl;
}

next_server_agrees_example : next_number first_view ≡ next_number second_view
unfolding all_servers_added added_unit_ids
next_server_agrees_example = next_server_agrees first_view second_view views refl

-- it is the turn of the second unit
second_turn : next_number second_view ≡ ok (some 1)
unfolding next_number lowest_unit_id init_leader next_server all_servers_added added_unit_ids
second_turn = refl

-- no unit is in the quorum yet, and the second one looks
abbrev at_first : ClusterState
at_first = record second_view { app_data = [] }

init_leader-lowest_example :
    (all_units_related at_first ≡ true) × (0 ≤ 1) × (any (◌==◌ 0) (quorum_ids at_first) ≡ false)
unfolding init_leader lowest_unit_id all_units_related servers quorum_ids quorum_unit_ids
init_leader-lowest_example =
    init_leader-lowest at_first 1 {leader = server 0 (("state", "started") ∷ [])} refl refl refl
