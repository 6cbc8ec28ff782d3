-- ===== src/Events/Restore/Local/Hook.antt =====
-- One hook as a step on the facts that its unit sees: `_restore_event_dispatch` of
-- src/events/backup.py.
use zookeeper_k8s_operator.Events.Restore.Refine.{
  forgets, progress-dispatch_step, app_data-dispatch_step,
}
use zookeeper_k8s_operator.Events.Restore.{dispatch, dispatch_step, restore_event_dispatch}
use zookeeper_k8s_operator.Base.{◌≡◌, refl, ◌∙◌, true, false, inl, inr, Bool-cases, ok}
use zookeeper_k8s_operator.Literals.{not_started}
use zookeeper_k8s_operator.Charm.{Charm, Observed}
use zookeeper_k8s_operator.Charm.Monad.{◌>>◌}
use zookeeper_k8s_operator.Charm.Monad.Keeps.{ok-then}
use zookeeper_k8s_operator.Events.Restore.Flow.{advance}
use zookeeper_k8s_operator.Events.Restore.Local.{
  Local, Sees, lead_local, local_step, local_step-on, local_step-off, may_lead,
}
use zookeeper_k8s_operator.Events.Restore.Local.Lead.{
  lead-Sees, leads_first, state-leads_first, related-written,
}

dispatch-Sees :
    (o : Observed) (c : Charm) {l : Local}
    → c.state.peer_relation ≡ true
    → Sees l c.state
    → (dispatch o c).0 ≡ ok tt
    → Sees (record l { progress = advance l.instruction l.progress }) (dispatch o c).1.state
dispatch-Sees o c {l} related v returned =
    let chosen = dispatches o c v in
    rw chosen (record {
      under_way = rw (app_data-dispatch_step o c l.instruction l.progress) v.under_way;
      instruction = rw (app_data-dispatch_step o c l.instruction l.progress) v.instruction;
      progress =
          progress-dispatch_step o c related l.instruction l.progress v.progress
            (rw chosen at returned);
    })
  where
    dispatches :
        (o : Observed) (c : Charm) {l : Local}
        → Sees l c.state
        → dispatch o c ≡ dispatch_step o l.instruction l.progress c
    dispatches o c v = unfold dispatch in rw (v.instruction, v.progress) refl

module _ (o : Observed) (c : Charm) {l : Local} (related : c.state.peer_relation ≡ true)
    (v : Sees l c.state) (returned : (restore_event_dispatch o c).0 ≡ ok tt) where
  off-Sees :
      l.under_way ≡ false
      → Sees (record l { progress = not_started }) (restore_event_dispatch o c).1.state
  off-Sees off =
      let (_, cleared, same) = forgets o c related (v.under_way ∙ off) v.progress in
      record {
        under_way = rw same v.under_way;
        instruction = rw same v.instruction;
        progress = cleared;
      }

  on-Sees :
      l.under_way ≡ true
      → Sees
          (record (lead_local (may_lead o c) l) {
            progress =
                advance
                  (lead_local (may_lead o c) l).instruction
                  (lead_local (may_lead o c) l).progress;
          })
          (restore_event_dispatch o c).1.state
  on-Sees on =
      let parts = in_parts in
      let run = ok-then (leads_first o o.is_leader) (dispatch o) c (rw parts at returned) in
      let written = state-leads_first o c o.is_leader v.instruction run.0 in
      rw (parts, run.1)
        (dispatch-Sees o (leads_first o o.is_leader c).1
          (rw written (related-written (may_lead o c) l.instruction c.state ∙ related))
          (rw written (lead-Sees (may_lead o c) related on v)) (rw (parts, run.1) at returned))
    where
      in_parts : restore_event_dispatch o c ≡ (leads_first o o.is_leader >> dispatch o) c
      in_parts = unfold restore_event_dispatch leads_first in rw (v.under_way ∙ on) refl

  -- What a hook of one related unit does, if it returns, to the facts that the unit sees.
  pub restore_event_dispatch-Sees :
      Sees (local_step (may_lead o c) l) (restore_event_dispatch o c).1.state
  restore_event_dispatch-Sees = elim (Bool-cases l.under_way) [
    | inr off ↦ rw (local_step-off (may_lead o c) l off) (off-Sees off)
    | inl on ↦ rw (local_step-on (may_lead o c) l on) (on-Sees on)
  ]
