-- ===== src/Events/Restore/Keeps.antt =====
-- The restore flow and the other units' databags: `_restore_event_dispatch` and `_on_restore_action`
-- of src/events/backup.py.
use zookeeper_k8s_operator.Base.{
  ℕ, zero, suc, String, ◌≡◌, refl, Bool, true, false, not, Option, none, some, List, [], ◌∷◌,
}
use zookeeper_k8s_operator.Literals.{
  RestoreStep, not_started, stop_workflow, restore, restart, clean,
}
use zookeeper_k8s_operator.Databag.{Databag}
use zookeeper_k8s_operator.Models.App.Apart.{is_apart}
use zookeeper_k8s_operator.Quorum.Acls.{update_acls}
use zookeeper_k8s_operator.Quorum.Acls.Keeps.{update_acls-KeepsState}
use zookeeper_k8s_operator.Charm.{Observed, Effect}
use zookeeper_k8s_operator.Backups.Files.{Call}
use zookeeper_k8s_operator.Charm.Clients.{update_client_data, disconnect_clients}
use zookeeper_k8s_operator.Charm.Clients.Keeps.{
  update_client_data-KeepsState, disconnect_clients-KeepsState,
}
use zookeeper_k8s_operator.Charm.Monad.{M, lift}
use zookeeper_k8s_operator.Charm.Monad.Fields.{
  KeepsFields, KeepsFields-bind, KeepsFields-of, KeepsFields-done, KeepsFields-lift, KeepsFields-if,
  KeepsFields-update_app, KeepsFields-update_unit, fields_rules,
}
use zookeeper_k8s_operator.Events.Backup.{on_restore_action}
use zookeeper_k8s_operator.Events.Backup.Guarded.{guarded-KeepsFields}
use zookeeper_k8s_operator.Events.Restore.{
  or_value_error, instruction, progress, record_progress, reconnect, maybe_progress_step,
  stop_workflow_step, download_and_restore, restart_workflow, cleaning_from, cleaning, call,
  run_calls, restore_snapshot, clean_up, dispatch_step, reset_progress, dispatch,
  restore_event_dispatch,
}
use zookeeper_k8s_operator.Events.Restore.Records.{
  call-KeepsState, run_calls-KeepsState, restore_snapshot-KeepsState,
}

abbrev no_key : String → Bool
no_key key = false

-- whatever fields of its own the unit writes
abbrev pub KeepsOthers : {A : Type 0} → M A → Type 0
KeepsOthers m = KeepsFields no_key m

is_apart-none : (items : Databag) → is_apart no_key items ≡ true
is_apart-none [] = refl
is_apart-none (item ∷ items) = is_apart-none items

or_value_error-KeepsOthers : (found : Option RestoreStep) → KeepsOthers (or_value_error found)
unfolding or_value_error
or_value_error-KeepsOthers none = KeepsFields-lift _
or_value_error-KeepsOthers (some s) = KeepsFields-lift _

instruction-KeepsOthers : KeepsOthers instruction
unfolding instruction
instruction-KeepsOthers = search (fields_rules, or_value_error-KeepsOthers)

progress-KeepsOthers : KeepsOthers progress
unfolding progress
progress-KeepsOthers = search (fields_rules, or_value_error-KeepsOthers)

record_progress-KeepsOthers : (s : RestoreStep) → KeepsOthers (record_progress s)
unfolding record_progress
record_progress-KeepsOthers s = search KeepsFields-update_unit

module _ (o : Observed) where
  update_client_data-KeepsOthers : KeepsOthers (update_client_data o)
  update_client_data-KeepsOthers =
      KeepsFields-of (update_client_data o) (update_client_data-KeepsState o)

  update_acls-KeepsOthers : (broken : Option ℕ) → KeepsOthers (update_acls o broken)
  update_acls-KeepsOthers broken =
      KeepsFields-of (update_acls o broken) (update_acls-KeepsState o broken)

  disconnect_clients-KeepsOthers : KeepsOthers (disconnect_clients o)
  disconnect_clients-KeepsOthers =
      KeepsFields-of (disconnect_clients o) (disconnect_clients-KeepsState o)

  reconnect-KeepsOthers : (current : RestoreStep) → KeepsOthers (reconnect o current)
  unfolding reconnect
  reconnect-KeepsOthers current =
      search (fields_rules, update_client_data-KeepsOthers, update_acls-KeepsOthers)

  maybe_progress_step-KeepsOthers : KeepsOthers (maybe_progress_step o)
  unfolding maybe_progress_step
  maybe_progress_step-KeepsOthers =
      search
        (
          fields_rules, instruction-KeepsOthers, reconnect-KeepsOthers, KeepsFields-update_app,
          is_apart-none,
        )
        depth 12

  call-KeepsOthers : (e : Effect) → KeepsOthers (call o e)
  call-KeepsOthers e = KeepsFields-of (call o e) (call-KeepsState o e)

  restore_snapshot-KeepsOthers : (id : String) → KeepsOthers (restore_snapshot o id)
  restore_snapshot-KeepsOthers id =
      KeepsFields-of (restore_snapshot o id) (restore_snapshot-KeepsState o id)

  run_calls-KeepsOthers : (calls : List Call) → KeepsOthers (run_calls o calls)
  run_calls-KeepsOthers calls = KeepsFields-of (run_calls o calls) (run_calls-KeepsState o calls)

  clean_up-KeepsOthers : KeepsOthers (clean_up o)
  unfolding clean_up
  clean_up-KeepsOthers = search (fields_rules, run_calls-KeepsOthers, record_progress-KeepsOthers)

  cleaning_from-KeepsOthers : (tries n : ℕ) → KeepsOthers (cleaning_from o tries n)
  unfolding cleaning_from
  cleaning_from-KeepsOthers zero n = KeepsFields-lift _
  cleaning_from-KeepsOthers (suc tries) n =
      let again = cleaning_from-KeepsOthers tries (suc n) in
      KeepsFields-bind (lift (o.healthy_at n)) _ (KeepsFields-lift (o.healthy_at n)) (λ healthy.
        KeepsFields-if (not healthy) (cleaning_from o tries (suc n)) (clean_up o) again
          clean_up-KeepsOthers)

  dispatch_step-KeepsOthers : (i p : RestoreStep) → KeepsOthers (dispatch_step o i p)
  unfolding dispatch_step stop_workflow_step download_and_restore restart_workflow cleaning
  dispatch_step-KeepsOthers stop_workflow not_started =
      search (fields_rules, call-KeepsOthers, record_progress-KeepsOthers) depth 12
  dispatch_step-KeepsOthers restore stop_workflow =
      search (fields_rules, restore_snapshot-KeepsOthers, record_progress-KeepsOthers) depth 12
  dispatch_step-KeepsOthers restart restore =
      search (fields_rules, call-KeepsOthers, record_progress-KeepsOthers)
  dispatch_step-KeepsOthers clean restart = cleaning_from-KeepsOthers 3 0
  dispatch_step-KeepsOthers _ _ = KeepsFields-done

  reset_progress-KeepsOthers : KeepsOthers (reset_progress o)
  unfolding reset_progress
  reset_progress-KeepsOthers =
      search (fields_rules, progress-KeepsOthers, record_progress-KeepsOthers) depth 12

  dispatch-KeepsOthers : KeepsOthers (dispatch o)
  unfolding dispatch
  dispatch-KeepsOthers =
      search
        (fields_rules, instruction-KeepsOthers, progress-KeepsOthers, dispatch_step-KeepsOthers)

  pub restore_event_dispatch-KeepsOthers : KeepsOthers (restore_event_dispatch o)
  unfolding restore_event_dispatch
  restore_event_dispatch-KeepsOthers =
      search
        (
          fields_rules, reset_progress-KeepsOthers, maybe_progress_step-KeepsOthers,
          dispatch-KeepsOthers,
        )
        depth 12

  pub on_restore_action-KeepsOthers :
      (id : String) (in_bucket : Bool) → KeepsOthers (on_restore_action o id in_bucket)
  unfolding on_restore_action
  on_restore_action-KeepsOthers id in_bucket =
      search
        (fields_rules, guarded-KeepsFields, KeepsFields-update_app, disconnect_clients-KeepsOthers)
        depth 12
