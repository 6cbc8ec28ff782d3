-- ===== src/Events/Restore/Network/Simulation.antt =====
-- The hooks that the units of an application run, as steps of `Flow`: src/charm.py and src/events/*.py.
use zookeeper_k8s_operator.Base.{ℕ, ◌≡◌, ok, List, [], ◌∷◌}
use zookeeper_k8s_operator.Charm.{Charm}
use zookeeper_k8s_operator.Charm.Monad.Keeps.{ok-then}
use zookeeper_k8s_operator.Events.Hooks.{handle, Call, run}
use zookeeper_k8s_operator.Events.Restore.Flow.{Reach-trans, Flow, Reach}
use zookeeper_k8s_operator.Events.Restore.Network.{
  Network, IsView, commit, NetStep, hook, NetReach, here, next, Abstracts,
}
use zookeeper_k8s_operator.Events.Restore.Network.Handled.{
  Follows, view-Follows, call-Follows, IsView-call,
}
use zookeeper_k8s_operator.Events.Restore.Network.View.{commit-commit}

-- the handlers of a hook, each on what the one before left
run-Follows :
    (calls : List Call) {net : Network} {f : Flow} (i : ℕ) (c : Charm)
    → Abstracts net f
    → IsView net i c.state
    → (run calls c).0 ≡ ok tt
    → Follows (commit i (run calls c).1.state net) f
unfolding run
run-Follows [] i c a v returned = view-Follows i a v
run-Follows ((o, h) ∷ calls) {net} {f} i c a v returned =
    let parts = ok-then (handle o h) (run calls) c returned in
    let first = call-Follows i o h c a v parts.0 in
    let rest =
      run-Follows calls i (handle o h c).1 first.says (IsView-call i o h c v)
        (rw parts.1 at returned) in
    rw parts.1 (record {
      to = rest.to;
      reached = Reach-trans first.reached rest.reached;
      says =
          rw (commit-commit i (handle o h c).1.state (run calls (handle o h c).1).1.state net) at
            rest.says;
    })

step-Follows :
    {net after : Network} {f : Flow} → Abstracts net f → NetStep net after → Follows after f
step-Follows a (hook i deferred emitted answers event c v returned e) =
    rw e (run-Follows _ i c a v returned)

-- Whatever hooks the units run, the databags say what the flow can reach.
pub reach-Follows :
    {net after : Network} {f : Flow} → Abstracts net f → NetReach net after → Follows after f
reach-Follows {net} {after} {f} a here = record { to = f; reached = Reach.here; says = a }
reach-Follows a (next r st) =
    let before = reach-Follows a r in
    let last = step-Follows before.says st in
    record { to = last.to; reached = Reach-trans before.reached last.reached; says = last.says }
