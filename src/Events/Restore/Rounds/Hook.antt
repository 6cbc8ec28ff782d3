-- ===== src/Events/Restore/Rounds/Hook.antt =====
-- One hook of a changed peer relation, and what it makes of the flow of a restore: src/charm.py and
-- src/events/backup.py.
use zookeeper_k8s_operator.Base.{
  ℕ, ◌≡◌, ap, refl, ◌∙◌, Bool, true, some, List, [], ◌∷◌, ◌++◌, get_elem?, All-get_elem?, Outcome,
  ok, raised, arith,
}
use zookeeper_k8s_operator.Literals.{RestoreStep}
use zookeeper_k8s_operator.Databag.{Databag}
use zookeeper_k8s_operator.Models
use zookeeper_k8s_operator.Models.Server.{ZkServer}
use zookeeper_k8s_operator.State.{ClusterState, cluster, servers}
use zookeeper_k8s_operator.State.Health.{all_units_done, same_step}
use zookeeper_k8s_operator.Charm.{Charm}
use zookeeper_k8s_operator.Charm.Monad.{M, ◌>>◌}
use zookeeper_k8s_operator.Charm.Monad.Fields.{SameFields}
use zookeeper_k8s_operator.Charm.Monad.Restoring.{is_restore_key}
use zookeeper_k8s_operator.Events.Hooks.{Call, run, handle}
use zookeeper_k8s_operator.Events.Restore.Flow.{Flow, Everyone}
use zookeeper_k8s_operator.Events.Restore.Wedge.{set_same}
use zookeeper_k8s_operator.Events.Restore.Network.{Network, step_done, commit, Abstracts}
use zookeeper_k8s_operator.Events.Restore.Network.Lists.{
  image_at, get_elem?-set_other, all_of_items, all-snoc_true,
}
use zookeeper_k8s_operator.Events.Restore.Network.View.{
  view-Sees, same-Sees, commit-Abstracts, IsView-commit,
}
use zookeeper_k8s_operator.Events.Restore.Rounds.{IsFullView}
use zookeeper_k8s_operator.Base.{◌&&◌, ◌==◌, ==_iff}
use zookeeper_k8s_operator.Charm.{Observed}
use zookeeper_k8s_operator.Events.Restore.{restore_event_dispatch}
use zookeeper_k8s_operator.Events.Restore.Local.{may_lead}
use zookeeper_k8s_operator.Events.Restore.Local.Hook.{restore_event_dispatch-Sees}
use zookeeper_k8s_operator.Events.Restore.Turns.{local_flow, turn_of}
use zookeeper_k8s_operator.Events.Restore.Network.View.{possible-Everyone}
use zookeeper_k8s_operator.Charm.Monad.Keeps.{ok-then}
use zookeeper_k8s_operator.Events.Hooks.{
  Handler, hook_calls, observers, restore_dispatch_handler, cluster_handler,
  cluster_relation_changed,
}
use zookeeper_k8s_operator.Charm.{Observed}
use zookeeper_k8s_operator.Events.Hooks.Keeps.{in_restore_flow, run-KeepsRestore}
use zookeeper_k8s_operator.Events.Restore.Keeps.{restore_event_dispatch-KeepsOthers}
use zookeeper_k8s_operator.Events.Restore.Network.View.{commit-commit}
use zookeeper_k8s_operator.Events.Restore.Rounds.{Turn, avoids_restore}

-- the second list of handlers runs on what the first one leaves
run-append : (xs ys : List Call) (c : Charm) → run (xs ++ ys) c ≡ (run xs >> run ys) c
unfolding run
run-append [] ys c = refl
run-append ((o, h) ∷ xs) ys c =
    on_result (handle o h c).0 (handle o h c).1 (run (xs ++ ys)) (run xs) (run ys)
      (run-append xs ys _)
  where
    on_result :
        (r : Outcome (Unit {0})) (d : Charm) (all_calls m n : M (Unit {0}))
        → all_calls d ≡ (m >> n) d
        → ((λ (_ : Charm). (r, d)) >> all_calls) d ≡ (((λ (_ : Charm). (r, d)) >> m) >> n) d
    on_result (ok a) d all_calls m n e = e
    on_result (raised e) d all_calls m n h = refl

-- where all units have done the instruction, a unit that sees them all finds it so
Everyone-possible :
    {net : Network} {f : Flow} (i : ℕ) {s : ClusterState}
    → Abstracts net f
    → IsFullView net i s
    → Everyone (λ p. p ≡ f.instruction) f
    → all_units_done s ≡ true
unfolding all_units_done servers Models.App.restore_instruction Models.Server.restore_progress
Everyone-possible {net} {f} i {s} a v everyone =
    rw (instructed, v.view.related)
      (all-snoc_true (λ (server : ZkServer). test server.relation_data) s.peers
        (record { unit = s.unit; substrate = s.substrate; relation_data = s.unit_data })
        (all_of_items test (λ (server : ZkServer). server.relation_data) s.peers
          (λ k d there. let (j, _, at) = v.known k d there in passes j d at))
        (passes i s.unit_data v.view.own))
  where
    test : Databag → Bool
    test d = same_step (step_done d) (some f.instruction)

    instructed : Models.App.restore_instruction (cluster s) ≡ some f.instruction
    instructed = rw (v.view.related, v.view.app) a.instruction

    same_steps : (p k : RestoreStep) → p ≡ k → same_step (some p) (some k) ≡ true
    same_steps p k e = unfold same_step in ground (arith, e)

    passes : (j : ℕ) (d : Databag) → get_elem? net.units j ≡ some d → test d ≡ true
    passes j d at =
        let (p, there, done) = image_at step_done net.units f.progress j a.progress at in
        rw done (
          same_steps p f.instruction
            (All-get_elem? (λ p. p ≡ f.instruction) f.progress j everyone there))

-- other handlers leave what the databags say, and what the unit sees
module _ {net : Network} {f : Flow} (i : ℕ) {s t : ClusterState} (a : Abstracts net f)
    (v : IsFullView net i s) (k : SameFields is_restore_key s t) where
  same-Abstracts : Abstracts (commit i t net) f
  same-Abstracts =
      let (p, at, done) = image_at step_done net.units f.progress i a.progress v.view.own in
      rw (set_same f.progress i at) at
        (commit-Abstracts i a (same-Sees v.view.related (view-Sees a v.view done) k))

  same-IsFullView : IsFullView (commit i t net) i t
  unfolding commit
  same-IsFullView = record {
    view = IsView-commit i v.view k.related k.peers;
    known = λ m d there.
        let (j, other, at) = v.known m d (rw k.peers at there) in
        (j, other, get_elem?-set_other net.units i j _ other ∙ at);
  }

-- What the hook makes of the flow: a turn of its unit, which leads exactly if it is the leader and all
-- units have done the instruction.
pub record Turned (leader : ℕ) (f : Flow) (i : ℕ) (after : Network) : Type 0 where
  pub step : RestoreStep
  pub at : get_elem? f.progress i ≡ some step
  pub leads : Bool
  pub says : Abstracts after (turn_of leads i step f)
  pub everyone : leads ≡ true → Everyone (λ p. p ≡ f.instruction) f
  pub must : i ≡ leader → Everyone (λ p. p ≡ f.instruction) f → leads ≡ true

-- the restore's own handler, on what the unit sees of the databags
dispatch-Turned :
    (leader : ℕ) {net : Network} {f : Flow} (i : ℕ) (o : Observed) (c : Charm) {last : ClusterState}
    → Abstracts net f
    → IsFullView net i c.state
    → o.is_leader ≡ (i == leader)
    → (restore_event_dispatch o c).0 ≡ ok tt
    → SameFields is_restore_key (restore_event_dispatch o c).1.state last
    → (restore_event_dispatch o c).1.state.peer_relation ≡ true
    → Turned leader f i (commit i last net)
unfolding local_flow
dispatch-Turned leader {net} {f} i o c a v leads returned same related =
    let (p, at, done) = image_at step_done net.units f.progress i a.progress v.view.own in
    let seen = restore_event_dispatch-Sees o c v.view.related (view-Sees a v.view done) returned in
    record {
      step = p;
      at = at;
      leads = may_lead o c;
      says = commit-Abstracts i a (same-Sees related seen same);
      everyone = λ h. possible-Everyone i a v.view (second o.is_leader h);
      must = λ e all. both (leads ∙ (==_iff i leader).1 e) (Everyone-possible i a v all);
    }
  where
    second : (b : Bool) {d : Bool} → b && d ≡ true → d ≡ true
    second b h = ground (arith, h)

    both : {b d : Bool} → b ≡ true → d ≡ true → b && d ≡ true
    both h k = ground (arith, h, k)

-- what runs after the restore's own handler, and what runs with it
abbrev later_calls : (Handler → Observed) → List Call → List Call
later_calls answers emitted = (answers cluster_handler, cluster_handler) ∷ emitted

abbrev own_calls : (Handler → Observed) → List Call → List Call
own_calls answers emitted =
    (answers restore_dispatch_handler, restore_dispatch_handler) ∷ later_calls answers emitted

in_order :
    (deferred emitted : List Call) (answers : Handler → Observed)
    → hook_calls deferred answers cluster_relation_changed emitted
      ≡ deferred ++ own_calls answers emitted
unfolding hook_calls observers
in_order [] emitted answers = refl
in_order (call ∷ deferred) emitted answers = ap (◌∷◌ call) (in_order deferred emitted answers)

run-hook_calls :
    (deferred emitted : List Call) (answers : Handler → Observed) (c : Charm)
    → run (hook_calls deferred answers cluster_relation_changed emitted) c
      ≡ (run deferred >> run (own_calls answers emitted)) c
run-hook_calls deferred emitted answers c =
    ap (λ calls. run calls c) (in_order deferred emitted answers)
    ∙ run-append deferred (own_calls answers emitted) c

later_calls-SameFields :
    (answers : Handler → Observed) (emitted : List Call) (c : Charm)
    → avoids_restore emitted ≡ true
    → SameFields is_restore_key c.state (run (later_calls answers emitted) c).1.state
unfolding in_restore_flow
later_calls-SameFields answers emitted c others =
    (run-KeepsRestore (later_calls answers emitted) others).at c

pub Turn-Turned :
    {leader i : ℕ} {net after : Network} {f : Flow}
    → Abstracts net f
    → Turn leader net i after
    → Turned leader f i after
unfolding run handle
Turn-Turned {leader} {i} {net} {after} {f} a t =
    let whole = run-hook_calls t.deferred t.emitted t.answers t.before in
    let o = t.answers restore_dispatch_handler in
    let first =
      ok-then (run t.deferred) (run (own_calls t.answers t.emitted)) t.before
        (rw whole at t.returns) in
    let c = (run t.deferred t.before).1 in
    let second =
      ok-then (restore_event_dispatch o) (run (later_calls t.answers t.emitted)) c
        (rw (whole ∙ first.1) at t.returns) in
    let started = (run-KeepsRestore t.deferred t.deferred_others).at t.before in
    let ended =
      later_calls-SameFields t.answers t.emitted (restore_event_dispatch o c).1 t.emitted_others in
    let kept = (restore_event_dispatch-KeepsOthers o).at c in
    let there = same-IsFullView i a t.sees started in
    rw (t.leaves, whole ∙ first.1 ∙ second.1)
      (rw (commit-commit i c.state _ net) at (
        dispatch-Turned leader i o c (same-Abstracts i a t.sees started) there t.leads second.0
          ended (kept.related ∙ there.view.related)))
