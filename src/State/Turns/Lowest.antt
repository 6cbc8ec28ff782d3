-- ===== src/State/Turns/Lowest.antt =====
-- Which server starts first: `init_leader` of src/core/cluster.py.
use zookeeper_k8s_operator.Base.{
  ℕ, ◌≤◌, ◌≡◌, refl, ap, ◌∙◌, sym, true, false, not, ◌&&◌, ◌==◌, Bool, Bool-cases, inl, inr, none,
  some, List, [], ◌∷◌, any, first, Outcome, ok, ◌>>=◌, >>=-returns, arith, if◌then◌else◌, Option,
  ==_iff,
}
use zookeeper_k8s_operator.Models.Server.{ZkServer, unit_id}
use zookeeper_k8s_operator.State.{ClusterState, servers, all_units_related}
use zookeeper_k8s_operator.State.Turns.{minimum, lowest_unit_id, has_id, init_leader}
use zookeeper_k8s_operator.State.Turns.Search.{
  contains, numbered, init_test, first-numbered, min_of-le,
}
use zookeeper_k8s_operator.State.Turns.Agreement.{ids, quorum_ids, init_leader-search}

minimum-le : (l : List ℕ) (n : ℕ) {m : ℕ} → minimum l ≡ ok m → contains n l ≡ true → m ≤ n
unfolding minimum
minimum-le [] n e h = cc
minimum-le (x ∷ l) n {m} e h = ground (arith, e, min_of-le x n l h)

lowest-le :
    (s : ClusterState) (n : ℕ) {low : ℕ}
    → lowest_unit_id s ≡ ok (some low)
    → contains n (ids s) ≡ true
    → (all_units_related s ≡ true) × (low ≤ n)
unfolding lowest_unit_id
lowest-le s n {low} e h = elim (Bool-cases (all_units_related s)) [
  | inr not_all ↦ absurd (ground (arith, e, not_all))
  | inl all_there ↦
      let (m, got, same) = >>=-returns (minimum (ids s)) _ (rw all_there at e) in
      (all_there, ground (arith, same, minimum-le (ids s) n got h))
]

-- no unit has the number of no unit
first-no_id :
    (q : List ℕ) (l : List ZkServer)
    → first (λ server. has_id none server && not (any (◌==◌ (unit_id server)) q)) l ≡ none
unfolding has_id
first-no_id q [] = refl
first-no_id q (x ∷ l) = ground (arith, first-no_id q l)

chosen :
    (low : ℕ) (q : List ℕ) (l : List ZkServer) {leader : ZkServer}
    → ok (first (numbered (init_test low q)) l) ≡ ok (some leader)
    → (unit_id leader ≡ low) × (any (◌==◌ (unit_id leader)) q ≡ false)
unfolding init_test
chosen low q l {leader} e =
    let passed =
      first-numbered (init_test low q) l
        (inj (first (numbered (init_test low q)) l) (some leader) e) in
    (ground (arith, passed, ==_iff (unit_id leader) low), ground (arith, passed))
  where
    inj : (x y : Option ZkServer) → ok x ≡ ok y → x ≡ y
    inj x y h = cc

searched : ClusterState → Option ℕ → Outcome (Option ZkServer)
searched s lowest = ok (
    first (λ server. has_id lowest server && not (any (◌==◌ (unit_id server)) (quorum_ids s)))
      (servers s))

init_leader-searched :
    (s : ClusterState) → s.peer_relation ≡ true → init_leader s ≡ (lowest_unit_id s >>= searched s)
unfolding init_leader searched quorum_ids
init_leader-searched s related =
    ap
      (λ (b : Bool).
        if◌then◌else◌ {A = Outcome (Option ZkServer)} b (lowest_unit_id s >>= searched s) (ok none))
      related

init_leader-of :
    (s : ClusterState) {leader : ZkServer}
    → s.peer_relation ≡ true
    → init_leader s ≡ ok (some leader)
    → (low : ℕ) × (lowest_unit_id s ≡ ok (some low))
init_leader-of s {leader} related e =
    let (found, got, rest) =
      >>=-returns (lowest_unit_id s) (searched s) (sym (init_leader-searched s related) ∙ e) in
    of_found s found got rest
  where
    of_found :
        (s : ClusterState) (found : Option ℕ) {leader : ZkServer}
        → lowest_unit_id s ≡ ok found
        → searched s found ≡ ok (some leader)
        → (low : ℕ) × (lowest_unit_id s ≡ ok (some low))
    of_found s none got rest = absurd (nobody s rest)
      where
        nobody : (s : ClusterState) {leader : ZkServer} → searched s none ≡ ok (some leader) → ⊥
        nobody s h = unfold searched in ground (arith, h, first-no_id (quorum_ids s) (servers s))
    of_found s (some low) got rest = (low, got)

-- In a related unit that sees a unit of number n: where a unit is chosen to start first, its number
-- is at most n, it is not in the quorum yet, and all planned units are related.
pub init_leader-lowest :
    (s : ClusterState) (n : ℕ) {leader : ZkServer}
    → s.peer_relation ≡ true
    → init_leader s ≡ ok (some leader)
    → contains n (ids s) ≡ true
    → (all_units_related s ≡ true)
      × (unit_id leader ≤ n)
      × (any (◌==◌ (unit_id leader)) (quorum_ids s) ≡ false)
init_leader-lowest s n {leader} related e h =
    let (low, lowest) = init_leader-of s related e in
    let (named, outside) =
      chosen low (quorum_ids s) (servers s) (sym (init_leader-search s related lowest) ∙ e) in
    let (all_there, least) = lowest-le s n lowest h in (all_there, rw named least, outside)
