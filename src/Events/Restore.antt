-- ===== src/Events/Restore.antt =====
-- The restore flow of one unit: `_restore_event_dispatch` of src/events/backup.py.
pub mod Flow
pub mod Payload
pub mod Local
pub mod Keeps
pub mod Network
pub mod Rounds
pub mod Wedge
pub mod Termination
pub mod Turns
pub mod Retry
pub mod Returns
pub mod Records
pub mod Written
pub mod Refine
pub mod Tests
use zookeeper_k8s_operator.Base.{
  ℕ, zero, suc, String, not, Option, none, some, List, [], ◌∷◌, if◌then◌else◌, Outcome, raised,
  retry_error, value_error,
}
use zookeeper_k8s_operator.Literals.{
  RestoreStep, not_started, stop_workflow, restore, restart, clean, step_value, next_step, step_eq,
  ongoing_restore,
}
use zookeeper_k8s_operator.Databag.{Databag}
use zookeeper_k8s_operator.Models
use zookeeper_k8s_operator.State.{cluster, unit_server}
use zookeeper_k8s_operator.State.Health.{ready, is_next_restore_step_possible}
use zookeeper_k8s_operator.Quorum.Acls.{update_acls}
use zookeeper_k8s_operator.Charm.{Observed, Effect, stop_service, restart_service, on_disk}
use zookeeper_k8s_operator.Charm.Monad.{
  M, ◌>>=◌, ◌>>◌, done, gets, act, lift, set_status, update_app, update_unit,
}
use zookeeper_k8s_operator.Charm.Clients.{update_client_data}
use zookeeper_k8s_operator.Backups.Files.{
  Call, clearing_calls, fetching_calls, cleanup_calls, bucket_path,
}
use zookeeper_k8s_operator.Events.Backup.{s3_credentials}

-- a text that is no step raises
or_value_error : Option RestoreStep → M RestoreStep
or_value_error none = lift (raised value_error)
or_value_error (some s) = lift (Outcome.ok s)

instruction : M RestoreStep
unfolding or_value_error
instruction = do
  found ← gets (λ c. Models.App.restore_instruction (cluster c.state))
  or_value_error found

progress : M RestoreStep
unfolding or_value_error
progress = do
  found ← gets (λ c. Models.Server.restore_progress (unit_server c.state))
  or_value_error found

record_progress : RestoreStep → M (Unit {0})
unfolding update_unit step_value
record_progress s = update_unit (("restore-progress", step_value s) ∷ [])

unfoldable pub payload : RestoreStep → Databag
unfolding step_value next_step
payload current =
    ("restore-instruction", step_value (next_step current))
    ∷ (if step_eq current clean then ("id-to-restore", "") ∷ ("to_restore", "") ∷ [] else [])

module _ (o : Observed) where
  -- at the last step the clients are told, and their access rights set
  unfoldable pub reconnect : RestoreStep → M (Unit {0})
  reconnect current =
      if step_eq current clean then update_client_data o >> update_acls o none else done

  unfoldable pub maybe_progress_step : M (Unit {0})
  unfolding instruction update_app reconnect
  maybe_progress_step = do
    current ← instruction
    answer ← gets (λ c. is_next_restore_step_possible c.state)
    possible ← lift answer
    if possible then (do reconnect current; update_app (payload current)) else done

  -- a call that raises what it is answered; else it is on the trace
  pub call : Effect → M (Unit {0})
  call e = lift (o.answer_to e) >> act e

  unfoldable pub run_calls : List Call → M (Unit {0})
  unfolding call
  run_calls [] = done
  run_calls (c ∷ calls) = call (on_disk c) >> run_calls calls

  unfoldable pub stop_workflow_step : M (Unit {0})
  unfolding set_status record_progress call
  stop_workflow_step = do
    set_status ongoing_restore
    call stop_service
    record_progress stop_workflow

  -- the storage's parameters are read only once the present files are out of the way
  unfoldable pub restore_snapshot : String → M (Unit {0})
  unfolding run_calls clearing_calls s3_credentials bucket_path fetching_calls
  restore_snapshot id = do
    run_calls clearing_calls
    parameters ← gets (λ c. s3_credentials o c.state)
    backups_path ← lift (bucket_path parameters)
    run_calls (fetching_calls backups_path id)

  unfoldable pub download_and_restore : M (Unit {0})
  unfolding record_progress restore_snapshot
  download_and_restore = do
    id ← gets (λ c. Models.App.id_to_restore (cluster c.state))
    restore_snapshot id
    record_progress restore

  unfoldable pub restart_workflow : M (Unit {0})
  unfolding record_progress call
  restart_workflow = do call restart_service; record_progress restart

  -- what the last step does where the service is healthy
  unfoldable pub clean_up : M (Unit {0})
  unfolding record_progress run_calls cleanup_calls
  clean_up = do run_calls cleanup_calls; record_progress clean

  -- `tries` attempts are left, and this is attempt `n`; an exception is not tried again
  cleaning_from : ℕ → ℕ → M (Unit {0})
  unfolding clean_up
  cleaning_from zero n = lift (raised retry_error)
  cleaning_from (suc tries) n =
      let again = cleaning_from tries (suc n) in
      lift (o.healthy_at n) >>= λ healthy. if not healthy then again else clean_up

  unfoldable pub cleaning : M (Unit {0})
  unfolding cleaning_from
  cleaning = cleaning_from 3 0

  unfoldable pub dispatch_step : RestoreStep → RestoreStep → M (Unit {0})
  unfolding stop_workflow_step download_and_restore restart_workflow cleaning
  dispatch_step stop_workflow not_started = stop_workflow_step
  dispatch_step restore stop_workflow = download_and_restore
  dispatch_step restart restore = restart_workflow
  dispatch_step clean restart = cleaning
  dispatch_step _ _ = done

  -- with no restore under way a unit forgets its progress
  unfoldable pub reset_progress : M (Unit {0})
  unfolding progress record_progress set_status
  reset_progress = do
    step ← progress
    if step_eq step not_started
        then done
        else do record_progress not_started; key ← gets (λ c. ready c.state); set_status key

  -- the `match` on the instruction and the unit's progress
  unfoldable pub dispatch : M (Unit {0})
  unfolding instruction progress
  dispatch = do current ← instruction; step ← progress; dispatch_step current step

  unfoldable pub restore_event_dispatch : M (Unit {0})
  unfolding dispatch
  restore_event_dispatch = do
    under_way ← gets (λ c. Models.App.is_restore_in_progress (cluster c.state))
    if not under_way
        then reset_progress
        else do if o.is_leader then maybe_progress_step else done; dispatch
