-- ===== src/Events/Backup/Begin.antt =====
-- When the restore action of src/events/backup.py begins a restore.
use zookeeper_k8s_operator.Base.{arith}
use zookeeper_k8s_operator.Base.{
  String, Bool, ◌≡◌, refl, ap, ◌∙◌, ◌⊎◌, inl, inr, true, false, some, [], ◌∷◌, Bool-cases,
}
use zookeeper_k8s_operator.Text.{truthy}
use zookeeper_k8s_operator.Literals.{not_started, step_value, step_of_value}
use zookeeper_k8s_operator.Databag.{Databag, get, get_or}
use zookeeper_k8s_operator.Databag.Update.{overlay}
use zookeeper_k8s_operator.Models
use zookeeper_k8s_operator.Models.App.Update.{get_or-update_keys}
use zookeeper_k8s_operator.State.{ClusterState, cluster, unit_server}
use zookeeper_k8s_operator.Charm.{Charm, Observed}
use zookeeper_k8s_operator.Charm.Monad.{update_app, write_app}
use zookeeper_k8s_operator.Charm.Writes.{app_data-write}
use zookeeper_k8s_operator.Charm.Clients.{disconnect_clients}
use zookeeper_k8s_operator.Charm.Clients.Keeps.{disconnect_clients-KeepsState}
use zookeeper_k8s_operator.Events.Backup.{
  on_restore_action, first_failure, guarded, fail_action, has_s3_credentials,
}

begun : String → Databag
begun id = ("id-to-restore", id) ∷ ("restore-instruction", step_value not_started) ∷ []

-- The restore of `id` has begun: what the application's data say, and that the unit's are as before.
pub record HasBegun (id : String) (before s : ClusterState) : Type 0 where
  pub wanted : Models.App.id_to_restore (cluster s) ≡ id
  pub under_way : Models.App.is_restore_in_progress (cluster s) ≡ true
  pub first_step : Models.App.restore_instruction (cluster s) ≡ some not_started
  pub own : unit_server s ≡ unit_server before

write-HasBegun :
    (id : String) (s : ClusterState)
    → s.peer_relation ≡ true
    → truthy id ≡ true
    → HasBegun id s (write_app (begun id) s)
unfolding begun Models.App.id_to_restore Models.App.is_restore_in_progress
    Models.App.restore_instruction get overlay step_value
write-HasBegun id s related full = record {
  wanted = wanted id s related full;
  under_way = ap truthy (wanted id s related full) ∙ full;
  first_step =
      ap (λ d. step_of_value (get_or "restore-instruction" "" d))
        (app_data-write (begun id) s related)
      ∙ ap step_of_value
          (get_or-update_keys "restore-instruction" "" (begun id) s.app_data (refl, (refl, tt)))
      ∙ (unfold truthy step_of_value in refl);
  own = same_unit id s;
}
  where
    same_unit :
        (id : String) (s : ClusterState) → unit_server (write_app (begun id) s) ≡ unit_server s
    same_unit id s = unfold write_app in ground arith

    wanted :
        (id : String) (s : ClusterState)
        → s.peer_relation ≡ true
        → truthy id ≡ true
        → get_or "id-to-restore" "" (cluster (write_app (begun id) s)).relation_data ≡ id
    wanted id s related full =
        ap (get_or "id-to-restore" "") (app_data-write (begun id) s related)
        ∙ get_or-update_keys "id-to-restore" "" (begun id) s.app_data (refl, (refl, tt))
        ∙ rw full refl

module _ (o : Observed) (id : String) (in_bucket : Bool) (c : Charm)
    (related : c.state.peer_relation ≡ true) (leader : o.is_leader ≡ true)
    (open_ : has_s3_credentials o c.state ≡ true) (full : truthy id ≡ true)
    (present : in_bucket ≡ true)
    (idle : Models.App.is_restore_in_progress (cluster c.state) ≡ false) where
  guards_pass :
      on_restore_action o id in_bucket c
      ≡ disconnect_clients o (record c { state = write_app (begun id) c.state })
  unfolding on_restore_action update_app begun first_failure guarded
  guards_pass = rw (open_, full, present, idle, leader) refl

  begins : HasBegun id c.state (on_restore_action o id in_bucket c).1.state
  begins =
      rw
        (
          guards_pass,
          (disconnect_clients-KeepsState o).at (record c { state = write_app (begun id) c.state }),
        )
        (write-HasBegun id c.state related full)

-- In a related unit, either the action leaves the unit's view of the databags as it was, or it runs on the leader while
-- no restore is under way, for an identifier that the storage has, and begins the restore of that
-- identifier at the first step, leaving the unit's own data as they were.
pub on_restore_action-cases :
    (o : Observed) (id : String) (in_bucket : Bool) (c : Charm)
    → c.state.peer_relation ≡ true
    → ((on_restore_action o id in_bucket c).1.state ≡ c.state)
      ⊎ ((o.is_leader ≡ true)
          × (in_bucket ≡ true)
          × (Models.App.is_restore_in_progress (cluster c.state) ≡ false)
          × HasBegun id c.state (on_restore_action o id in_bucket c).1.state)
unfolding on_restore_action update_app begun first_failure guarded fail_action
on_restore_action-cases o id in_bucket c related = elim (Bool-cases o.is_leader) [
  | inr follower ↦ inl (rw follower refl)
  | inl leader ↦ elim (Bool-cases (has_s3_credentials o c.state)) [
    | inr locked ↦ inl (rw (leader, locked) refl)
    | inl open_ ↦ elim (Bool-cases (truthy id)) [
      | inr empty ↦ inl (rw (leader, open_, empty) refl)
      | inl full ↦ elim (Bool-cases in_bucket) [
        | inr absent ↦ inl (rw (leader, open_, full, absent) refl)
        | inl present ↦ elim (Bool-cases (Models.App.is_restore_in_progress (cluster c.state))) [
          | inl busy ↦ inl (rw (leader, open_, full, present, busy) refl)
          | inr idle ↦ inr (
            leader,
            present,
            idle,
            begins o id in_bucket c related leader open_ full present idle,
          )
        ]
      ]
    ]
  ]
]
