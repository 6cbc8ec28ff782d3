-- ===== src/Events/Restore/Refine.antt =====
-- The handler `_restore_event_dispatch` of src/events/backup.py, beside the steps of `Flow`.
use zookeeper_k8s_operator.Base.{
  ◌≡◌, refl, ap, ◌∙◌, true, false, inl, inr, Bool-cases, some, [], ◌∷◌, ok, arith,
}
use zookeeper_k8s_operator.Literals.{
  RestoreStep, not_started, stop_workflow, restore, restart, clean, step_value, step_eq,
}
use zookeeper_k8s_operator.Models
use zookeeper_k8s_operator.State.{ClusterState, cluster}
use zookeeper_k8s_operator.Charm.{Charm, Observed}
use zookeeper_k8s_operator.Charm.Monad.{set_status, write_unit}
use zookeeper_k8s_operator.Events.Restore.{dispatch_step, reset_progress, restore_event_dispatch}
use zookeeper_k8s_operator.Events.Restore.Written.{progress_of, progress-write_unit}
use zookeeper_k8s_operator.Events.Restore.Records.{
  stop_workflow_step-Records, download_and_restore-Records, restart_workflow-Records,
  cleaning-Records,
}
use zookeeper_k8s_operator.Events.Restore.Flow.{advance}

-- The unit's own step: its progress advances as the instruction says.
pub progress-dispatch_step :
    (o : Observed) (c : Charm)
    → c.state.peer_relation ≡ true
    → (i p : RestoreStep) → progress_of c ≡ some p
    → (dispatch_step o i p c).0 ≡ ok tt
    → progress_of (dispatch_step o i p c).1 ≡ some (advance i p)
unfolding dispatch_step advance
progress-dispatch_step o c related stop_workflow not_started e done =
    (stop_workflow_step-Records o).own c related done
progress-dispatch_step o c related restore stop_workflow e done =
    (download_and_restore-Records o).own c related done
progress-dispatch_step o c related restart restore e done =
    (restart_workflow-Records o).own c related done
progress-dispatch_step o c related clean restart e done = (cleaning-Records o).own c related done
progress-dispatch_step o c related _ _ e done = e

pub app_data-dispatch_step :
    (o : Observed) (c : Charm) (i p : RestoreStep)
    → (cluster (dispatch_step o i p c).1.state) ≡ cluster c.state
unfolding dispatch_step
app_data-dispatch_step o c stop_workflow not_started = (stop_workflow_step-Records o).app c
app_data-dispatch_step o c restore stop_workflow = (download_and_restore-Records o).app c
app_data-dispatch_step o c restart restore = (restart_workflow-Records o).app c
app_data-dispatch_step o c clean restart = (cleaning-Records o).app c
app_data-dispatch_step o c _ _ = refl

module _ (o : Observed) (c : Charm) {i p : RestoreStep} (related : c.state.peer_relation ≡ true)
    (under_way : Models.App.is_restore_in_progress (cluster c.state) ≡ true)
    (instructed : Models.App.restore_instruction (cluster c.state) ≡ some i)
    (reached : progress_of c ≡ some p) where
  dispatch_lem : o.is_leader ≡ false → restore_event_dispatch o c ≡ dispatch_step o i p c
  unfolding restore_event_dispatch
  dispatch_lem follower = rw (under_way, follower, instructed, reached)

  -- A related unit that is not the leader, while a restore is under way: a handler that returns has advanced
  -- the unit's progress as the instruction says, and has left the application's data alone.
  follower_advances :
      o.is_leader ≡ false
      → (restore_event_dispatch o c).0 ≡ ok tt
      → (progress_of (restore_event_dispatch o c).1 ≡ some (advance i p))
        × (cluster (restore_event_dispatch o c).1.state ≡ cluster c.state)
  follower_advances follower returned = rw (dispatch_lem follower) (
    progress-dispatch_step o c related i p reached (rw (dispatch_lem follower) at returned),
    app_data-dispatch_step o c i p,
  )

-- With no restore under way, a related unit that recorded some progress forgets it: the handler returns, the
-- progress is the first step again, and the application's data are as before.
pub forgets :
    (o : Observed) (c : Charm) {p : RestoreStep}
    → c.state.peer_relation ≡ true
    → Models.App.is_restore_in_progress (cluster c.state) ≡ false
    → progress_of c ≡ some p
    → ((restore_event_dispatch o c).0 ≡ ok tt)
      × (progress_of (restore_event_dispatch o c).1 ≡ some not_started)
      × (cluster (restore_event_dispatch o c).1.state ≡ cluster c.state)
unfolding restore_event_dispatch reset_progress set_status
forgets o c {p} related at_rest reached = elim (Bool-cases (step_eq p not_started)) [
  | inl first ↦ rw (at_rest, reached, first) (refl, reached ∙ ap some (is_first p first), refl)
  | inr later ↦
      rw (at_rest, reached, later)
        (refl, progress-write_unit not_started c.state related, same_app c.state)
]
  where
    is_first : (p : RestoreStep) → step_eq p not_started ≡ true → p ≡ not_started
    is_first p h = ground arith

    same_app :
        (s : ClusterState)
        → cluster (write_unit (("restore-progress", step_value not_started) ∷ []) s) ≡ cluster s
    same_app s = unfold write_unit in ground arith
