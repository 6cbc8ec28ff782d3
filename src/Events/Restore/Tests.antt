-- ===== src/Events/Restore/Tests.antt =====
-- The restore flow at concrete inputs.
use zookeeper_k8s_operator.Events.Restore.Retry.{Ends, cleaning_lem}
use zookeeper_k8s_operator.Base.{
  ◌≡◌, ◌⊎◌, ◌==◌, not, raised, retry_error, refl, true, false, some, [], ◌∷◌, ok, get_elem?, ℕ,
  arith,
}
use zookeeper_k8s_operator.Literals.{not_started, stop_workflow, restore, clean}
use zookeeper_k8s_operator.State.{ClusterState}
use zookeeper_k8s_operator.State.Health.{
  is_next_restore_step_possible, ready, all_units_quorum, all_units_unified,
}
use zookeeper_k8s_operator.State.{all_units_related, servers}
use zookeeper_k8s_operator.Models
use zookeeper_k8s_operator.Charm.{Observed}
use zookeeper_k8s_operator.Databag.{get}
use zookeeper_k8s_operator.Samples.{two_units, charm, observed, storing}
use zookeeper_k8s_operator.Events.Restore.{
  restore_event_dispatch, dispatch_step, cleaning, reconnect,
}
use zookeeper_k8s_operator.Events.Restore.Returns.{restore_event_dispatch-returns}
use zookeeper_k8s_operator.Events.Restore.Returns.Steps.{Recovers}
use zookeeper_k8s_operator.Backups.Files.{bucket_path}
use zookeeper_k8s_operator.Events.Backup.{s3_credentials}
use zookeeper_k8s_operator.Charm.Clients.{update_client_data}
use zookeeper_k8s_operator.Quorum.Acls.{update_acls}
use zookeeper_k8s_operator.State.Endpoints.{clients}
use zookeeper_k8s_operator.Events.Restore.Flow.{Flow, here, act, advance}
use zookeeper_k8s_operator.Events.Restore.Termination.{work, work-Step}
use zookeeper_k8s_operator.Base.{◌<◌}
use zookeeper_k8s_operator.Events.Restore.Local.{Local, Sees, local_step}
use zookeeper_k8s_operator.Events.Restore.Local.Hook.{restore_event_dispatch-Sees}
use zookeeper_k8s_operator.Events.Restore.Wedge.{begin_early_wedges}

abbrev early : Flow
early = record { under_way = false; instruction = not_started; progress = not_started ∷ clean ∷ [] }

begin_early_wedges_example :
    (true ≡ true)
    × (not_started ≡ not_started)
    × (get_elem? (not_started ∷ clean ∷ []) 1 ≡ some clean)
begin_early_wedges_example = begin_early_wedges 1 early refl refl refl here

abbrev follower : ClusterState
follower =
    two_units (("id-to-restore", "b1") ∷ ("restore-instruction", "restore") ∷ [])
      (("restore-progress", "stop") ∷ []) (("restore-progress", "restore") ∷ [])

-- the first unit finished a restore, and none is under way
abbrev finished : ClusterState
finished = two_units [] (("restore-progress", "clean") ∷ []) []

-- the service is up at the second check
abbrev slow : Observed
slow = record (observed false) { healthy_at = λ n. ok (not (n == 0)) }

cleaning_lem_example :
    ((k : ℕ) × (k < 3)
      × ((j : ℕ) → j < k → slow.healthy_at j ≡ ok false)
      × Ends slow (charm finished) (cleaning slow (charm finished)) k)
    ⊎ (((j : ℕ) → j < 3 → slow.healthy_at j ≡ ok false)
        × (cleaning slow (charm finished) ≡ (raised retry_error, charm finished)))
cleaning_lem_example = cleaning_lem slow (charm finished)

-- the first unit of two has stopped
abbrev stopping : Flow
stopping = record {
  under_way = true;
  instruction = stop_workflow;
  progress = stop_workflow ∷ not_started ∷ [];
}

work-Step_example :
    (record stopping { progress = stop_workflow ∷ stop_workflow ∷ [] } ≡ stopping)
    ⊎ (work (record stopping { progress = stop_workflow ∷ stop_workflow ∷ [] }) < work stopping)
unfolding advance
work-Step_example = work-Step {f = stopping} refl (act 1 refl refl refl)

abbrev follower_sees : Local
follower_sees = record { under_way = true; instruction = restore; progress = stop_workflow }

-- the next unit that is told to restore
restore_event_dispatch-Sees_example :
    Sees
      (local_step false follower_sees)
      (restore_event_dispatch (storing false) (charm follower)).1.state
unfolding Models.App.is_restore_in_progress Models.App.restore_instruction
    Models.Server.restore_progress get restore_event_dispatch dispatch_step
restore_event_dispatch-Sees_example =
    restore_event_dispatch-Sees (storing false) (charm follower) {l = follower_sees} refl
      (record { under_way = refl; instruction = refl; progress = refl }) refl

storing-Recovers : Recovers (storing true)
storing-Recovers = (0, omega arith, refl, λ j h. absurd (omega (arith, h)))

restore_event_dispatch-returns_example :
    (restore_event_dispatch (storing true) (charm follower)).0 ≡ ok tt
unfolding Models.App.is_restore_in_progress Models.App.restore_instruction
    Models.Server.restore_progress get reconnect update_client_data update_acls clients ready
    all_units_quorum Models.Server.quorum Models.App.quorum Models.App.switching_encryption
    all_units_unified all_units_related Models.Server.started is_next_restore_step_possible servers
    bucket_path s3_credentials
restore_event_dispatch-returns_example =
    restore_event_dispatch-returns (storing true) (charm follower) {l = follower_sees} {path = "zk"}
      {possible = false} refl (record { under_way = refl; instruction = refl; progress = refl })
      storing-Recovers (λ e. refl) refl refl refl
