-- ===== src/Events/Backup/Keeps.antt =====
-- The backup handlers, but for the restore itself, and the fields of a restore:
-- src/events/backup.py.
use zookeeper_k8s_operator.Base.{String, List, Outcome}
use zookeeper_k8s_operator.Databag.{Databag}
use zookeeper_k8s_operator.Backups.{BackupMetadata}
use zookeeper_k8s_operator.Charm.{Observed}
use zookeeper_k8s_operator.Charm.Monad.Restoring.{
  KeepsRestore, KeepsFields-update_app, fields_rules,
}
use zookeeper_k8s_operator.Events.Backup.Guarded.{guarded-KeepsFields}
use zookeeper_k8s_operator.Events.Backup.{
  BucketAnswer, found, forbidden, missing, other_answer, ensure_bucket, on_s3_credentials_changed,
  on_s3_credentials_gone, on_create_backup_action, on_list_backups_action,
}

ensure_bucket-KeepsRestore : (answer : BucketAnswer) → KeepsRestore (ensure_bucket answer)
unfolding ensure_bucket
ensure_bucket-KeepsRestore found = search fields_rules
ensure_bucket-KeepsRestore forbidden = search fields_rules
ensure_bucket-KeepsRestore missing = search fields_rules
ensure_bucket-KeepsRestore other_answer = search fields_rules

module _ (o : Observed) where
  pub on_s3_credentials_changed-KeepsRestore :
      (parameters : Databag) (answer : BucketAnswer)
      → KeepsRestore (on_s3_credentials_changed o parameters answer)
  unfolding on_s3_credentials_changed
  on_s3_credentials_changed-KeepsRestore parameters answer =
      search (fields_rules, KeepsFields-update_app, ensure_bucket-KeepsRestore) depth 15

  pub on_s3_credentials_gone-KeepsRestore : KeepsRestore (on_s3_credentials_gone o)
  unfolding on_s3_credentials_gone
  on_s3_credentials_gone-KeepsRestore = search (fields_rules, KeepsFields-update_app)

  pub on_create_backup_action-KeepsRestore : KeepsRestore (on_create_backup_action o)
  unfolding on_create_backup_action
  on_create_backup_action-KeepsRestore = search (fields_rules, guarded-KeepsFields)

  pub on_list_backups_action-KeepsRestore :
      (listed : Outcome (List BackupMetadata)) (dumps : List BackupMetadata → String)
      → KeepsRestore (on_list_backups_action o listed dumps)
  unfolding on_list_backups_action
  on_list_backups_action-KeepsRestore listed dumps =
      search (fields_rules, guarded-KeepsFields) depth 12
