-- ===== src/Events/Restore/Network/Safety.antt =====
-- What the databags of an application say during a restore: src/events/backup.py.
use zookeeper_k8s_operator.Base.{ℕ, ◌≡◌, sym, ◌∙◌, some, get_elem?, All-get_elem?}
use zookeeper_k8s_operator.Literals.{RestoreStep}
use zookeeper_k8s_operator.Databag.{Databag}
use zookeeper_k8s_operator.Events.Restore.Flow.{Flow, Inv, Permitted, restore_safe}
use zookeeper_k8s_operator.Events.Restore.Network.{Network, told, step_done, NetReach, Abstracts}
use zookeeper_k8s_operator.Events.Restore.Network.Lists.{image_at}
use zookeeper_k8s_operator.Events.Restore.Network.Simulation.{reach-Follows}

-- From databags in step, whatever hooks the units run, of whatever events, in whatever order and with
-- whatever answers from outside: the databag of every unit records the instruction that the
-- application's databag gives, or the one before it.
pub network_safe :
    {net after : Network} {f : Flow} {k p : RestoreStep} {d : Databag} (i : ℕ)
    → Abstracts net f
    → Inv f
    → NetReach net after
    → told after.app_data ≡ some k
    → get_elem? after.units i ≡ some d
    → step_done d ≡ some p
    → Permitted k p
network_safe {net} {after} {f} {k} {p} {d} i a v r given at recorded =
    let end = reach-Follows a r in
    let (q, there, done) = image_at step_done after.units end.to.progress i end.says.progress at in
    rw
      (
        step_inj p q (sym recorded ∙ done),
        step_inj k end.to.instruction (sym given ∙ end.says.instruction),
      )
      (All-get_elem? (Permitted end.to.instruction) end.to.progress i (restore_safe v end.reached)
        there)
  where
    step_inj : (x y : RestoreStep) → some x ≡ some y → x ≡ y
    step_inj x y e = cc
