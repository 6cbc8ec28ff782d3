-- ===== src/Events/Restore/Payload.antt =====
-- What the leader writes at each step of the restore flow: `_maybe_progress_step` of
-- src/events/backup.py.
use zookeeper_k8s_operator.Base.{
  ◌≡◌, refl, ap, ◌∙◌, true, false, String, Option, some, arith, if◌then◌else◌,
}
use zookeeper_k8s_operator.Text.{truthy}
use zookeeper_k8s_operator.Literals.{
  RestoreStep, not_started, stop_workflow, restore, restart, clean, step_value, step_of_value,
  step_eq, next_step,
}
use zookeeper_k8s_operator.Databag.{Databag, get, get_or, or_default}
use zookeeper_k8s_operator.Databag.Update.{overlay, IsDict}
use zookeeper_k8s_operator.Models
use zookeeper_k8s_operator.Models.App.Update.{get_or-update_keys}
use zookeeper_k8s_operator.State.{ClusterState, cluster}
use zookeeper_k8s_operator.Charm.Writes.{app_data-write}
use zookeeper_k8s_operator.Charm.Monad.{write_app}
use zookeeper_k8s_operator.Events.Restore.{payload}

-- the flag of the application's data after the leader's write
flag_back :
    (i : RestoreStep) (old : Option String)
    → truthy (or_default "" (overlay (get "id-to-restore" (payload i)) old))
      ≡ (if step_eq i clean then false else truthy (or_default "" old))
unfolding payload get overlay truthy
flag_back not_started old = refl
flag_back stop_workflow old = refl
flag_back restore old = refl
flag_back restart old = refl
flag_back clean old = refl

payload-IsDict : (i : RestoreStep) → IsDict (payload i)
unfolding payload get
payload-IsDict not_started = (refl, tt)
payload-IsDict stop_workflow = (refl, tt)
payload-IsDict restore = (refl, tt)
payload-IsDict restart = (refl, tt)
payload-IsDict clean = (refl, (refl, (refl, tt)))

pub flag-payload :
    (i : RestoreStep) (state : ClusterState)
    → state.peer_relation ≡ true
    → Models.App.is_restore_in_progress (cluster (write_app (payload i) state))
      ≡ (if step_eq i clean then false else Models.App.is_restore_in_progress (cluster state))
unfolding Models.App.is_restore_in_progress
flag-payload i state related =
    ap (λ d. truthy (get_or "id-to-restore" "" d)) (app_data-write (payload i) state related)
    ∙ ap truthy
        (get_or-update_keys "id-to-restore" "" (payload i) state.app_data (payload-IsDict i))
    ∙ flag_back i (get "id-to-restore" state.app_data)
    ∙ ap (λ (d : Databag). if step_eq i clean then false else truthy (get_or "id-to-restore" "" d))
        (plain state related)
  where
    plain : (s : ClusterState) → s.peer_relation ≡ true → s.app_data ≡ (cluster s).relation_data
    plain s related = ground (arith, related)

told_back :
    (i : RestoreStep) (old : Option String)
    → step_of_value (or_default "" (overlay (get "restore-instruction" (payload i)) old))
      ≡ some (next_step i)
unfolding payload get overlay truthy step_value step_of_value next_step
told_back not_started old = refl
told_back stop_workflow old = refl
told_back restore old = refl
told_back restart old = refl
told_back clean old = refl

pub told-payload :
    (i : RestoreStep) (state : ClusterState)
    → state.peer_relation ≡ true
    → Models.App.restore_instruction (cluster (write_app (payload i) state)) ≡ some (next_step i)
unfolding Models.App.restore_instruction
told-payload i state related =
    ap (λ d. step_of_value (get_or "restore-instruction" "" d))
      (app_data-write (payload i) state related)
    ∙ ap step_of_value
        (get_or-update_keys "restore-instruction" "" (payload i) state.app_data (payload-IsDict i))
    ∙ told_back i (get "restore-instruction" state.app_data)
