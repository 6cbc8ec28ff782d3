-- ===== src/Events/Restore/Network/View.antt =====
-- What a unit sees of the databags, and what it leaves in them: src/core/cluster.py and
-- src/events/backup.py.
use zookeeper_k8s_operator.Base.{
  ℕ, Bool, ◌≡◌, ◌≢◌, refl, ap, sym, ◌∙◌, true, false, inl, inr, Bool-cases, some, List, get_elem?,
  set, all, ◌==◌, ==_iff, arith,
}
use zookeeper_k8s_operator.Literals.{RestoreStep}
use zookeeper_k8s_operator.Databag.{Databag, get_or}
use zookeeper_k8s_operator.Models
use zookeeper_k8s_operator.Models.Server.{ZkServer}
use zookeeper_k8s_operator.State.{ClusterState, cluster, unit_server, servers}
use zookeeper_k8s_operator.State.Health.{all_units_done, same_step}
use zookeeper_k8s_operator.Charm.Monad.Fields.{SameFields}
use zookeeper_k8s_operator.Charm.Monad.Restoring.{is_restore_key}
use zookeeper_k8s_operator.Events.Restore.Flow.{Flow, Everyone}
use zookeeper_k8s_operator.Events.Restore.Local.{Local, Sees}
use zookeeper_k8s_operator.Events.Restore.Network.{Network, step_done, IsView, commit, Abstracts}
use zookeeper_k8s_operator.Events.Restore.Network.Lists.{
  item_at, map-set, set-set, get_elem?-set_same, get_elem?-set_other, All-of_get_elem?, all_at,
  all-snoc,
}

pub same_step-eq : (p i : RestoreStep) → same_step (some p) (some i) ≡ true → p ≡ i
unfolding same_step
same_step-eq p i h = ground (arith, h)

-- the unit's place in the flow, as the unit sees it
pub view-Sees :
    {net : Network} {f : Flow} {i : ℕ} {s : ClusterState} {p : RestoreStep}
    → Abstracts net f
    → IsView net i s
    → step_done s.unit_data ≡ some p
    → Sees (record { under_way = f.under_way; instruction = f.instruction; progress = p }) s
unfolding Models.App.is_restore_in_progress Models.App.restore_instruction
    Models.Server.restore_progress
view-Sees {net} {f} {i} {s} a v e = record {
  under_way = rw (v.related, v.app) a.under_way;
  instruction = rw (v.related, v.app) a.instruction;
  progress = rw v.related e;
}

-- what a unit leaves is what the flow then says
pub commit-Abstracts :
    (i : ℕ) {net : Network} {f : Flow} {s : ClusterState} {l : Local}
    → Abstracts net f
    → Sees l s
    → Abstracts (commit i s net) (record {
      under_way = l.under_way;
      instruction = l.instruction;
      progress = set f.progress i l.progress;
    })
unfolding commit Models.App.is_restore_in_progress Models.App.restore_instruction
    Models.Server.restore_progress
commit-Abstracts i {net} {f} {s} {l} a v = record {
  under_way = v.under_way;
  instruction = v.instruction;
  progress = map-set step_done net.units f.progress i a.progress v.progress;
}

-- what the same facts say of a unit that wrote nothing of a restore
pub same-Sees :
    {l : Local} {s t : ClusterState}
    → s.peer_relation ≡ true
    → Sees l s
    → SameFields is_restore_key s t
    → Sees l t
unfolding Models.App.is_restore_in_progress Models.App.restore_instruction
    Models.Server.restore_progress get_or
same-Sees {l} {s} {t} related v k = record {
  under_way = rw (k.related ∙ related, k.app "id-to-restore" refl) (rw related at v.under_way);
  instruction =
      rw (k.related ∙ related, k.app "restore-instruction" refl) (rw related at v.instruction);
  progress = rw (k.related ∙ related, k.own "restore-progress" refl) (rw related at v.progress);
}

-- a unit that commits twice leaves what it commits last
pub commit-commit :
    (i : ℕ) (s t : ClusterState) (net : Network) → commit i t (commit i s net) ≡ commit i t net
unfolding commit
commit-commit i s t net =
    ap (λ units. record { app_data = (cluster t).relation_data; units = units })
      (set-set net.units i (unit_server s).relation_data (unit_server t).relation_data)

-- what a unit leaves is what it then sees
pub IsView-commit :
    (i : ℕ) {net : Network} {s t : ClusterState}
    → IsView net i s
    → t.peer_relation ≡ s.peer_relation
    → t.peers ≡ s.peers
    → IsView (commit i t net) i t
unfolding commit
IsView-commit i {net} {s} {t} v same_relation same_peers = record {
  related = same_relation ∙ v.related;
  app = rw (same_relation ∙ v.related) refl;
  own = rw (same_relation ∙ v.related) (get_elem?-set_same net.units i t.unit_data v.own);
  others = λ j d h there.
      rw same_peers (v.others j d h (sym (get_elem?-set_other net.units i j _ h) ∙ there));
}

pub one_unit :
    (units : List Databag) {i j : ℕ} {d e : Databag}
    → j ≡ i
    → get_elem? units i ≡ some d
    → get_elem? units j ≡ some e
    → e ≡ d
one_unit units same h k = cc

pub ne_of_test : {i j : ℕ} → (j == i) ≡ false → j ≢ i
ne_of_test h e = ground (arith, h, e)

-- where a unit finds that all have done the instruction, they all have
pub possible-Everyone :
    {net : Network} {f : Flow} (i : ℕ) {s : ClusterState}
    → Abstracts net f
    → IsView net i s
    → all_units_done s ≡ true
    → Everyone (λ p. p ≡ f.instruction) f
unfolding all_units_done servers Models.App.restore_instruction Models.Server.restore_progress
possible-Everyone {net} {f} i {s} a v possible =
    All-of_get_elem? (λ p. p ≡ f.instruction) f.progress each
  where
    test : Databag → Bool
    test d = same_step (step_done d) (some f.instruction)

    instructed : Models.App.restore_instruction (cluster s) ≡ some f.instruction
    instructed = rw (v.related, v.app) a.instruction

    split :
        (all (λ (server : ZkServer). test server.relation_data) s.peers ≡ true)
        × (test s.unit_data ≡ true)
    split =
        all-snoc (λ (server : ZkServer). test server.relation_data) s.peers
          (record { unit = s.unit; substrate = s.substrate; relation_data = s.unit_data })
          (rw (instructed, v.related) at possible)

    at_unit : (j : ℕ) (d : Databag) → get_elem? net.units j ≡ some d → test d ≡ true
    at_unit j d e = elim (Bool-cases (j == i)) [
      | inl same ↦ rw (one_unit net.units ((==_iff j i).0 same) v.own e) split.1
      | inr different ↦
          let (k, there) = v.others j d (ne_of_test different) e in
          all_at test (λ (server : ZkServer). server.relation_data) s.peers k split.0 there
    ]

    each : (j : ℕ) (p : RestoreStep) → get_elem? f.progress j ≡ some p → p ≡ f.instruction
    each j p e =
        let (d, at, done) = item_at step_done net.units f.progress j a.progress e in
        same_step-eq p f.instruction (rw done at (at_unit j d at))
