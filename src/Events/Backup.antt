-- ===== src/Events/Backup.antt =====
-- The backup actions and the object storage's events: src/events/backup.py.
pub mod Begin
pub mod Guarded
pub mod Keeps
mod Tests
use zookeeper_k8s_operator.Base.{
  String, Bool, true, false, not, Option, none, some, List, [], ◌∷◌, map, all, if◌then◌else◌,
}
use zookeeper_k8s_operator.Text.{truthy, strip}
use zookeeper_k8s_operator.Literals.{
  status_truthy, no_peer_relation, missing_s3_config, bucket_not_created, step_value, RestoreStep,
}
use zookeeper_k8s_operator.Databag.{Databag, get, get_or, insert}
use zookeeper_k8s_operator.Models
use zookeeper_k8s_operator.State.{ClusterState, cluster}
use zookeeper_k8s_operator.State.Health.{stable}
use zookeeper_k8s_operator.Charm.{
  Observed, deferred, create_bucket, create_backup, action_failed, action_results,
}
use zookeeper_k8s_operator.Charm.Monad.{
  M, ◌>>=◌, ◌>>◌, lift, pure, done, gets, act, set_status, update_app,
}
use zookeeper_k8s_operator.Charm.Clients.{disconnect_clients}
use zookeeper_k8s_operator.Backups.{BackupMetadata}
use zookeeper_k8s_operator.Base.{Outcome}

-- What the storage answers to a question for the bucket.
pub data BucketAnswer : Type 0 where
  found forbidden missing other_answer : BucketAnswer

-- `create_bucket` of src/managers/backup.py
unfoldable pub ensure_bucket : BucketAnswer → M Bool
ensure_bucket forbidden = pure false
ensure_bucket missing = act create_bucket >> pure true
ensure_bucket _ = pure true

has_key : Databag → String → Bool
unfolding get
has_key d key = elim (get key d) [ none ↦ false | some v ↦ true ]

-- d.setdefault(key, value)
set_default : String → String → Databag → Databag
unfolding has_key insert
set_default key value d = if has_key d key then d else insert key value d

-- the connection's parameters with their defaults, stripped
unfoldable pub complete_parameters : Databag → Databag
unfolding set_default strip
complete_parameters d =
    map (λ e. (e.0, strip e.1))
      (set_default "path" "zookeeper_backups"
        (set_default "region" "" (set_default "endpoint" "https://s3.amazonaws.com" d)))

unfoldable pub s3_credentials : Observed → ClusterState → Databag
unfolding get_or
s3_credentials o s = o.loads_map (get_or "s3-credentials" "{}" (cluster s).relation_data)

unfoldable pub has_s3_credentials : Observed → ClusterState → Bool
unfolding s3_credentials
has_s3_credentials o s = elim (s3_credentials o s) [ [] ↦ false | e ∷ d ↦ true ]

-- the first failing condition's message
first_failure : List (Bool × String) → Option String
first_failure [] = none
first_failure ((failed, msg) ∷ rest) =
    let later = first_failure rest in if failed then some msg else later

fail_action : String → M (Unit {0})
fail_action msg = act (action_results (("error", msg) ∷ [])) >> act (action_failed msg)

pub guarded : Option String → M (Unit {0}) → M (Unit {0})
unfolding fail_action
guarded none body = body
guarded (some msg) body = fail_action msg

module _ (o : Observed) where
  unfoldable pub on_s3_credentials_changed : Databag → BucketAnswer → M (Unit {0})
  unfolding has_key complete_parameters ensure_bucket set_status update_app
  on_s3_credentials_changed parameters answer = if not o.is_leader then done else do
    state ← gets (λ c. c.state)
    if not state.peer_relation
        then (do set_status no_peer_relation; act deferred)
        else if not (all (has_key parameters) ("bucket" ∷ "access-key" ∷ "secret-key" ∷ []))
        then set_status missing_s3_config
        else do
          created ← ensure_bucket answer
          if not created
              then set_status bucket_not_created
              else update_app
                  (("s3-credentials", o.dumps_map (complete_parameters parameters)) ∷ [])

  unfoldable pub on_s3_credentials_gone : M (Unit {0})
  unfolding update_app
  on_s3_credentials_gone =
      if not o.is_leader then done else update_app (("s3-credentials", "") ∷ [])

  unfoldable pub on_create_backup_action : M (Unit {0})
  unfolding first_failure guarded has_s3_credentials status_truthy
  on_create_backup_action = do
    state ← gets (λ c. c.state)
    guarded
        (first_failure (
          (not o.is_leader, "Action must be ran on the application leader")
          ∷ (not (status_truthy (stable state)), "Cluster must be stable before making a backup")
          ∷ (
            not (has_s3_credentials o state),
            "Cluster needs an access to an object storage to make a backup",
          )
          ∷ []))
        (act create_backup)

  -- `listed` is what the backup manager gives, and `dumps` is json.dumps of it
  unfoldable pub on_list_backups_action :
      Outcome (List BackupMetadata) → (List BackupMetadata → String) → M (Unit {0})
  unfolding first_failure guarded has_s3_credentials
  on_list_backups_action listed dumps = do
    state ← gets (λ c. c.state)
    guarded
        (first_failure (
          (not o.is_leader, "Action must be ran on the application leader")
          ∷ (
            not (has_s3_credentials o state),
            "Cluster needs an access to an object storage to make a backup",
          )
          ∷ []))
        (do backups ← lift listed; act (action_results (("backups", dumps backups) ∷ [])))

  -- `in_bucket` is the storage's answer for the identifier
  unfoldable pub on_restore_action : String → Bool → M (Unit {0})
  unfolding first_failure guarded has_s3_credentials truthy update_app step_value disconnect_clients
  on_restore_action id in_bucket = do
    state ← gets (λ c. c.state)
    guarded
        (first_failure (
          (not o.is_leader, "Action must be ran on the application leader")
          ∷ (
            not (has_s3_credentials o state),
            "Cluster needs an access to an object storage to make a backup",
          )
          ∷ (not (truthy id), "No backup id to restore provided")
          ∷ (not in_bucket, "Backup id not found in storage object")
          ∷ (
            Models.App.is_restore_in_progress (cluster state),
            "A snapshot restore is currently ongoing",
          )
          ∷ []))
        (do
          update_app (
              ("id-to-restore", id)
              ∷ ("restore-instruction", step_value RestoreStep.not_started)
              ∷ [])
          disconnect_clients o)
