-- ===== src/Events/Restore/Network/Handled.antt =====
-- One handler, run by a unit of an application, as steps of `Flow`: src/charm.py and src/events/*.py.
use zookeeper_k8s_operator.Base.{
  ℕ, String, Bool, ◌≡◌, refl, sym, ap, ◌∙◌, true, false, ◌&&◌, ◌⊎◌, inl, inr, some, List, get_elem?,
  ok, arith,
}
use zookeeper_k8s_operator.Literals.{
  RestoreStep, not_started, stop_workflow, restore, restart, clean, next_step,
}
use zookeeper_k8s_operator.State.{ClusterState}
use zookeeper_k8s_operator.Charm.{Charm, Observed}
use zookeeper_k8s_operator.Events.Backup.{on_restore_action}
use zookeeper_k8s_operator.Events.Backup.Begin.{on_restore_action-cases}
use zookeeper_k8s_operator.Events.Restore.{restore_event_dispatch}
use zookeeper_k8s_operator.Events.Restore.Flow.{Flow, Step, Reach, Everyone, advance}
use zookeeper_k8s_operator.Events.Restore.Turns.{flow_of, local_of, local_flow}
use zookeeper_k8s_operator.Events.Restore.Wedge.{set_same, advance-not_started}
use zookeeper_k8s_operator.Events.Restore.Local.{may_lead, local_step}
use zookeeper_k8s_operator.Events.Restore.Local.Hook.{restore_event_dispatch-Sees}
use zookeeper_k8s_operator.Events.Restore.Network.{Network, step_done, IsView, commit, Abstracts}
use zookeeper_k8s_operator.Events.Restore.Network.Lists.{image_at}
use zookeeper_k8s_operator.Events.Restore.Network.View.{
  view-Sees, same-Sees, commit-Abstracts, possible-Everyone, IsView-commit,
}
use zookeeper_k8s_operator.Charm.Monad.Fields.{SameFields, SameFields-same}
use zookeeper_k8s_operator.Charm.Monad.Restoring.{is_restore_key}
use zookeeper_k8s_operator.Events.Restore.Keeps.{
  restore_event_dispatch-KeepsOthers, on_restore_action-KeepsOthers,
}
use zookeeper_k8s_operator.Events.Hooks.{Handler, handle, restore_dispatch_handler, restore_handler}
use zookeeper_k8s_operator.Events.Hooks.Keeps.{in_restore_flow, handle-KeepsRestore}

Reach-local :
    (u leads : Bool) (k : RestoreStep) (ps : List RestoreStep) (i : ℕ) {p : RestoreStep}
    → get_elem? ps i ≡ some p
    → (leads ≡ true → Everyone (λ q. q ≡ k) (flow_of u k ps))
    → Reach (flow_of u k ps) (local_flow i (local_step leads (local_of u k p)) (flow_of u k ps))
unfolding local_flow local_step next_step advance
Reach-local false leads k ps i at everyone = Reach.next Reach.here (Step.forget i refl refl)
Reach-local true false k ps i at everyone = Reach.next Reach.here (Step.act i refl at refl)
Reach-local true true clean ps i {p} at everyone = Reach.next Reach.here (
    Step.lead refl (everyone refl)
      (ap (flow_of false not_started) (rw (advance-not_started p) (set_same ps i at))))
Reach-local true true not_started ps i at everyone =
    Reach.next (Reach.next Reach.here (Step.lead refl (everyone refl) refl))
      (Step.act i refl at refl)
Reach-local true true stop_workflow ps i at everyone =
    Reach.next (Reach.next Reach.here (Step.lead refl (everyone refl) refl))
      (Step.act i refl at refl)
Reach-local true true restore ps i at everyone =
    Reach.next (Reach.next Reach.here (Step.lead refl (everyone refl) refl))
      (Step.act i refl at refl)
Reach-local true true restart ps i at everyone =
    Reach.next (Reach.next Reach.here (Step.lead refl (everyone refl) refl))
      (Step.act i refl at refl)

-- The databags after a step say what a flow says that the hooks of `Flow` can reach.
pub record Follows (after : Network) (f : Flow) : Type 0 where
  pub to : Flow
  pub reached : Reach f to
  pub says : Abstracts after to

dispatch-Follows :
    {net : Network} {f : Flow} (i : ℕ) (o : Observed) (c : Charm)
    → Abstracts net f
    → IsView net i c.state
    → (restore_event_dispatch o c).0 ≡ ok tt
    → Follows (commit i (restore_event_dispatch o c).1.state net) f
dispatch-Follows {net} {f} i o c a v returned =
    let (p, at, done) = image_at step_done net.units f.progress i a.progress v.own in
    let seen = view-Sees a v done in
    record {
      to = local_flow i (local_step (may_lead o c) (local_of f.under_way f.instruction p)) f;
      reached =
          Reach-local f.under_way (may_lead o c) f.instruction f.progress i at
            (λ h. possible-Everyone i a v (both o.is_leader h));
      says =
          unfold local_flow in
          commit-Abstracts i a (restore_event_dispatch-Sees o c v.related seen returned);
    }
  where
    both : (b : Bool) {d : Bool} → b && d ≡ true → d ≡ true
    both b h = ground (arith, h)

Reach-same :
    (u : Bool) (k : RestoreStep) (ps : List RestoreStep) (i : ℕ) {p : RestoreStep}
    → get_elem? ps i ≡ some p
    → Reach (flow_of u k ps) (local_flow i (local_of u k p) (flow_of u k ps))
unfolding local_flow
Reach-same u k ps i at = rw (set_same ps i at) Reach.here

Reach-begun :
    (u : Bool) (k : RestoreStep) (ps : List RestoreStep) (i : ℕ) {p : RestoreStep}
    → get_elem? ps i ≡ some p
    → u ≡ false
    → Reach (flow_of u k ps) (local_flow i (local_of true not_started p) (flow_of u k ps))
unfolding local_flow
Reach-begun u k ps i at off = rw (set_same ps i at) (Reach.next Reach.here (Step.begin off refl))

-- the leader's action: the databags are as before, or a restore begins
action-Follows :
    {net : Network} {f : Flow} (i : ℕ) (o : Observed) (id : String) (in_bucket : Bool) (c : Charm)
    → Abstracts net f
    → IsView net i c.state
    → Follows (commit i (on_restore_action o id in_bucket c).1.state net) f
action-Follows {net} {f} i o id in_bucket c a v =
    let (p, at, done) = image_at step_done net.units f.progress i a.progress v.own in
    let seen = view-Sees a v done in
    elim (on_restore_action-cases o id in_bucket c v.related) [
      | inl same ↦ record {
        to = local_flow i (local_of f.under_way f.instruction p) f;
        reached = Reach-same f.under_way f.instruction f.progress i at;
        says = unfold local_flow in commit-Abstracts i a (rw same seen);
      }
      | inr (_, _, idle, begun) ↦ record {
        to = local_flow i (local_of true not_started p) f;
        reached = Reach-begun f.under_way f.instruction f.progress i at (sym seen.under_way ∙ idle);
        says =
            unfold local_flow in
            commit-Abstracts i a (record {
              under_way = begun.under_way;
              instruction = begun.first_step;
              progress = rw begun.own seen.progress;
            });
      }
    ]

in_restore_flow-cases :
    (h : Handler)
    → (in_restore_flow h ≡ false)
      ⊎ ((h ≡ restore_dispatch_handler)
          ⊎ ((id : String) × (in_bucket : Bool) × (h ≡ restore_handler id in_bucket)))
unfolding in_restore_flow
in_restore_flow-cases restore_dispatch_handler = inr (inl refl)
in_restore_flow-cases (restore_handler id in_bucket) = inr (inr (id, in_bucket, refl))
in_restore_flow-cases _ = inl refl

-- where a unit wrote nothing of the restore, the flow stands still
keeps-Follows :
    {net : Network} {f : Flow} (i : ℕ) {s t : ClusterState}
    → Abstracts net f
    → IsView net i s
    → SameFields is_restore_key s t
    → Follows (commit i t net) f
keeps-Follows {net} {f} i {s} {t} a v k =
    let (p, at, done) = image_at step_done net.units f.progress i a.progress v.own in
    record {
      to = local_flow i (local_of f.under_way f.instruction p) f;
      reached = Reach-same f.under_way f.instruction f.progress i at;
      says = unfold local_flow in commit-Abstracts i a (same-Sees v.related (view-Sees a v done) k);
    }

pub view-Follows :
    {net : Network} {f : Flow} (i : ℕ) {s : ClusterState}
    → Abstracts net f
    → IsView net i s
    → Follows (commit i s net) f
view-Follows i a v = keeps-Follows i a v (SameFields-same refl)

pub call-Follows :
    {net : Network} {f : Flow} (i : ℕ) (o : Observed) (h : Handler) (c : Charm)
    → Abstracts net f
    → IsView net i c.state
    → (handle o h c).0 ≡ ok tt
    → Follows (commit i (handle o h c).1.state net) f
call-Follows i o h c a v returned = elim (in_restore_flow-cases h) [
  | inl apart ↦ keeps-Follows i a v ((handle-KeepsRestore o h apart).at c)
  | inr (inl dispatch) ↦
      unfold handle in rw dispatch (dispatch-Follows i o c a v (rw dispatch at returned))
  | inr (inr (id, in_bucket, action)) ↦
      unfold handle in rw action (action-Follows i o id in_bucket c a v)
]

-- no handler writes another unit's databag
pub IsView-call :
    {net : Network} (i : ℕ) (o : Observed) (h : Handler) (c : Charm)
    → IsView net i c.state
    → IsView (commit i (handle o h c).1.state net) i (handle o h c).1.state
IsView-call i o h c v = let (related, peers) = others_same in IsView-commit i v related peers
  where
    others_same :
        ((handle o h c).1.state.peer_relation ≡ c.state.peer_relation)
        × ((handle o h c).1.state.peers ≡ c.state.peers)
    others_same = elim (in_restore_flow-cases h) [
      | inl apart ↦ let same = (handle-KeepsRestore o h apart).at c in (same.related, same.peers)
      | inr (inl dispatch) ↦
          let same = (restore_event_dispatch-KeepsOthers o).at c in
          unfold handle in rw dispatch (same.related, same.peers)
      | inr (inr (id, in_bucket, action)) ↦
          let same = (on_restore_action-KeepsOthers o id in_bucket).at c in
          unfold handle in rw action (same.related, same.peers)
    ]
