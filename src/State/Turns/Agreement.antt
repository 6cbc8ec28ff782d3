-- ===== src/State/Turns/Agreement.antt =====
-- `next_server` in the views of two units: src/core/cluster.py.
use zookeeper_k8s_operator.Base.{
  ℕ, Outcome, raised, Error, length-map, ◌≡◌, refl, sym, ap, ◌∙◌, true, false, Option, none, some,
  List, map, first, ok, arith, length, ◌>>=◌,
}
use zookeeper_k8s_operator.Models
use zookeeper_k8s_operator.State.Turns.Search.{
  contains, minimum-eq, numbered, init_test, follow_test, choose, choose_same, number,
}
use zookeeper_k8s_operator.Models.Server.{ZkServer, unit_id}
use zookeeper_k8s_operator.State.{
  ClusterState, cluster, servers, all_servers_added, all_units_related,
}
use zookeeper_k8s_operator.State.Turns.{lowest_unit_id, init_leader, next_server}

abbrev pub ids : ClusterState → List ℕ
ids s = map unit_id (servers s)

-- The same units, in any order; the two views are those of two units of the application.
pub record SameView (s t : ClusterState) : Type 0 where
  pub related_s : s.peer_relation ≡ true
  pub related_t : t.peer_relation ≡ true
  pub app : s.app_data ≡ t.app_data
  pub numbers : (n : ℕ) → contains n (ids s) ≡ contains n (ids t)
  pub lengths : length (servers s) ≡ length (servers t)
  pub planned : s.planned_units ≡ t.planned_units

unfoldable pub quorum_ids : ClusterState → List ℕ
quorum_ids s = Models.App.quorum_unit_ids (cluster s)

pub init_leader-search :
    (s : ClusterState) {low : ℕ}
    → s.peer_relation ≡ true
    → lowest_unit_id s ≡ ok (some low)
    → init_leader s ≡ ok (first (numbered (init_test low (quorum_ids s))) (servers s))
unfolding init_leader init_test quorum_ids
init_leader-search s related lowest = ground (arith, related, lowest)

next_server-choose :
    (s : ClusterState) {low : ℕ}
    → s.peer_relation ≡ true
    → lowest_unit_id s ≡ ok (some low)
    → all_servers_added s ≡ false
    → next_server s ≡ ok (choose low (quorum_ids s) (servers s))
unfolding next_server choose follow_test quorum_ids
next_server-choose s related lowest partial =
    ground (arith, related, lowest, partial, init_leader-search s related lowest)

-- the number of the unit that may start next, if there is one
unfoldable pub next_number : ClusterState → Outcome (Option ℕ)
unfolding next_server
next_number s = next_server s >>= λ server. ok (number server)

next_number-raised :
    (s : ClusterState) {e : Error} → lowest_unit_id s ≡ raised e → next_number s ≡ raised e
unfolding next_number
next_number-raised s l = rw l refl

next_number-none : (s : ClusterState) → lowest_unit_id s ≡ ok none → next_number s ≡ ok none
unfolding next_number
next_number-none s l = rw l refl

next_number-choose :
    (s : ClusterState) {low : ℕ}
    → s.peer_relation ≡ true
    → lowest_unit_id s ≡ ok (some low)
    → all_servers_added s ≡ false
    → next_number s ≡ ok (number (choose low (quorum_ids s) (servers s)))
next_number-choose s related lowest partial =
    unfold next_number in
    ap (λ (r : Outcome (Option ZkServer)). r >>= λ server. ok (number server))
      (next_server-choose s related lowest partial)

module _ (s t : ClusterState) (v : SameView s t) where
  cluster-eq : cluster s ≡ cluster t
  cluster-eq = ground (arith, v.related_s, v.related_t, v.app)

  quorum_ids-eq : quorum_ids s ≡ quorum_ids t
  unfolding quorum_ids
  quorum_ids-eq = ap Models.App.quorum_unit_ids cluster-eq

  lowest-eq : lowest_unit_id s ≡ lowest_unit_id t
  unfolding lowest_unit_id all_units_related
  lowest-eq = ground (arith, v.lengths, v.planned, minimum-eq (ids s) (ids t) v.numbers same_length)
    where
      same_length : length (ids s) ≡ length (ids t)
      same_length =
          length-map unit_id (servers s) ∙ v.lengths ∙ sym (length-map unit_id (servers t))

  added-eq : all_servers_added s ≡ all_servers_added t
  unfolding all_servers_added
  added-eq = ground (arith, v.lengths, v.related_s, v.related_t, cluster-eq)

  -- Two units that see the same data and the same units, in whatever order, agree on the number of the unit
  -- that may start next, on that there is none, and on an exception, as long as not all servers are in the
  -- quorum.
  pub next_server_agrees : all_servers_added s ≡ false → next_number s ≡ next_number t
  next_server_agrees partial = by_lowest (lowest_unit_id s) refl
    where
      by_lowest : (o : Outcome (Option ℕ)) → lowest_unit_id s ≡ o → next_number s ≡ next_number t
      by_lowest (raised e) l =
          next_number-raised s l ∙ sym (next_number-raised t (sym lowest-eq ∙ l))
      by_lowest (ok none) l = next_number-none s l ∙ sym (next_number-none t (sym lowest-eq ∙ l))
      by_lowest (ok (some low)) l =
          next_number-choose s v.related_s l partial
          ∙ ap ok (choose_same low (quorum_ids s) (servers s) (servers t) v.numbers)
          ∙ ap (λ (q : List ℕ). ok (number (choose low q (servers t)))) quorum_ids-eq
          ∙ sym (next_number-choose t v.related_t (sym lowest-eq ∙ l) (sym added-eq ∙ partial))
