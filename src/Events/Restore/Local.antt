-- ===== src/Events/Restore/Local.antt =====
-- One hook of one unit in the restore flow, on the facts that the flow is about: what
-- `_restore_event_dispatch` of src/events/backup.py does to them.
pub mod Lead
pub mod Hook
use zookeeper_k8s_operator.Databag.{Databag}
use zookeeper_k8s_operator.Events.Restore.Refine.{
  forgets, progress-dispatch_step, app_data-dispatch_step,
}
use zookeeper_k8s_operator.Events.Restore.Payload.{flag-payload, told-payload}
use zookeeper_k8s_operator.Events.Restore.{dispatch, dispatch_step, restore_event_dispatch}
use zookeeper_k8s_operator.Base.{
  ◌≡◌, refl, ap, ◌∙◌, true, false, arith, not, ◌&&◌, Bool, inl, inr, Bool-cases, some, Outcome, ok,
  if◌then◌else◌,
}
use zookeeper_k8s_operator.Literals.{RestoreStep, not_started, clean, step_eq, next_step}
use zookeeper_k8s_operator.Models
use zookeeper_k8s_operator.State.{ClusterState, cluster, unit_server}
use zookeeper_k8s_operator.State.Health.{all_units_done}
use zookeeper_k8s_operator.Charm.{Charm, Observed}
use zookeeper_k8s_operator.Charm.Monad.{M, done, ◌>>◌, write_app, update_app}
use zookeeper_k8s_operator.Charm.Monad.Keeps.{KeepsState, ok-then, keeps_rules}
use zookeeper_k8s_operator.Charm.Clients.Keeps.{update_client_data-KeepsState}
use zookeeper_k8s_operator.Quorum.Acls.Keeps.{update_acls-KeepsState}
use zookeeper_k8s_operator.Events.Restore.{payload, reconnect, maybe_progress_step}
use zookeeper_k8s_operator.Events.Restore.Flow.{advance}

-- The facts, as one unit sees them.
pub record Local : Type 0 where
  pub under_way : Bool
  pub instruction : RestoreStep
  pub progress : RestoreStep

pub record Sees (l : Local) (s : ClusterState) : Type 0 where
  pub under_way : Models.App.is_restore_in_progress (cluster s) ≡ l.under_way
  pub instruction : Models.App.restore_instruction (cluster s) ≡ some l.instruction
  pub progress : Models.Server.restore_progress (unit_server s) ≡ some l.progress

-- what the leader writes, where all units have done the instruction
unfoldable pub lead_local : Bool → Local → Local
lead_local possible l =
    if possible
    then record l {
      under_way = not (step_eq l.instruction clean);
      instruction = next_step l.instruction;
    }
    else l

unfoldable pub local_step : Bool → Local → Local
unfolding lead_local
local_step leads l =
    if not l.under_way
    then record l { progress = not_started }
    else let told = lead_local leads l in
      record told { progress = advance told.instruction told.progress }

-- the leader, which sees that all units have done the instruction
abbrev pub may_lead : Observed → Charm → Bool
may_lead o c = o.is_leader && all_units_done c.state

pub local_step-on :
    (leads : Bool) (l : Local)
    → l.under_way ≡ true
    → local_step leads l ≡ record (lead_local leads l) {
      progress = advance (lead_local leads l).instruction (lead_local leads l).progress;
    }
unfolding local_step
local_step-on leads l on =
    ap
      (λ (b : Bool).
        if not b then record l { progress = not_started } else record (lead_local leads l) {
          progress = advance (lead_local leads l).instruction (lead_local leads l).progress;
        })
      on

pub local_step-off :
    (leads : Bool) (l : Local)
    → l.under_way ≡ false
    → local_step leads l ≡ record l { progress = not_started }
unfolding local_step
local_step-off leads l off =
    ap
      (λ (b : Bool).
        if not b then record l { progress = not_started } else record (lead_local leads l) {
          progress = advance (lead_local leads l).instruction (lead_local leads l).progress;
        })
      off
