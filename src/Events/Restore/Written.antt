-- ===== src/Events/Restore/Written.antt =====
-- The progress that a unit records: src/events/backup.py.
use zookeeper_k8s_operator.Base.{◌≡◌, refl, ap, ◌∙◌, true, Option, some, [], ◌∷◌, String}
use zookeeper_k8s_operator.Text.{truthy}
use zookeeper_k8s_operator.Literals.{
  RestoreStep, not_started, stop_workflow, restore, restart, clean, step_value, step_of_value,
}
use zookeeper_k8s_operator.Databag.{Databag, get, or_default, get_or, update}
use zookeeper_k8s_operator.Databag.Update.{get_or-update, overlay}
use zookeeper_k8s_operator.Models
use zookeeper_k8s_operator.State.{ClusterState, unit_server}
use zookeeper_k8s_operator.Charm.{Charm}
use zookeeper_k8s_operator.Charm.Writes.{unit_data-write}
use zookeeper_k8s_operator.Charm.Monad.{write_unit}

read_back :
    (s : RestoreStep) (old : Option String)
    → step_of_value (
        or_default ""
          (overlay (get "restore-progress" (("restore-progress", step_value s) ∷ [])) old))
      ≡ some s
unfolding get overlay truthy step_value step_of_value
read_back not_started old = refl
read_back stop_workflow old = refl
read_back restore old = refl
read_back restart old = refl
read_back clean old = refl

-- Progress that is recorded is read back.
restore_progress-record :
    (s : RestoreStep) (d : Databag)
    → step_of_value
        (get_or "restore-progress" "" (update (("restore-progress", step_value s) ∷ []) d))
      ≡ some s
restore_progress-record s d =
    rw
      (get_or-update "restore-progress" "" (("restore-progress", step_value s) ∷ []) d
        ((unfold get in refl), tt))
      (read_back s (get "restore-progress" d))

abbrev pub progress_of : Charm → Option RestoreStep
progress_of c = Models.Server.restore_progress (unit_server c.state)

pub progress-write_unit :
    (s : RestoreStep) (state : ClusterState)
    → state.peer_relation ≡ true
    → Models.Server.restore_progress
        (unit_server (write_unit (("restore-progress", step_value s) ∷ []) state))
      ≡ some s
unfolding Models.Server.restore_progress
progress-write_unit s state related =
    ap (λ (d : Databag). step_of_value (get_or "restore-progress" "" d))
      (unit_data-write (("restore-progress", step_value s) ∷ []) state related)
    ∙ restore_progress-record s state.unit_data
