-- ===== src/Events/Hooks/Keeps.antt =====
-- The handlers that are not of the restore flow, and its fields: src/charm.py and
-- src/events/*.py.
use zookeeper_k8s_operator.Base.{
  ◌≡◌, refl, Bool, Bool-cases, inl, inr, true, false, not, ◌&&◌, List, [], ◌∷◌, all, arith,
}
use zookeeper_k8s_operator.Databag.{get_or}
use zookeeper_k8s_operator.Models
use zookeeper_k8s_operator.State.{ClusterState, cluster, unit_server}
use zookeeper_k8s_operator.Charm.{Charm, Observed}
use zookeeper_k8s_operator.Charm.Monad.Restoring.{
  is_restore_key, KeepsRestore, KeepsFields-done, KeepsFields-then,
}
use zookeeper_k8s_operator.Charm.Monad.Fields.{SameFields}
use zookeeper_k8s_operator.Charm.Changed.Keeps.{
  on_cluster_relation_changed-KeepsRestore, on_secret_changed-KeepsRestore,
}
use zookeeper_k8s_operator.Charm.Lifecycle.Keeps.{
  on_install-KeepsRestore, on_zookeeper_pebble_ready-KeepsRestore, on_restart-KeepsRestore,
}
use zookeeper_k8s_operator.Events.Passwords.Keeps.{
  get_password_action-KeepsRestore, set_password_action-KeepsRestore,
}
use zookeeper_k8s_operator.Events.Provider.Keeps.{
  on_client_relation_updated-KeepsRestore, on_client_relation_broken-KeepsRestore,
}
use zookeeper_k8s_operator.Events.Certificates.Keeps.{
  on_certificates_created-KeepsRestore, on_certificates_joined-KeepsRestore,
  on_certificate_available-KeepsRestore, on_certificate_expiring-KeepsRestore,
  on_certificates_broken-KeepsRestore, set_tls_private_key-KeepsRestore,
}
use zookeeper_k8s_operator.Events.Backup.Keeps.{
  on_s3_credentials_changed-KeepsRestore, on_s3_credentials_gone-KeepsRestore,
  on_create_backup_action-KeepsRestore, on_list_backups_action-KeepsRestore,
}
use zookeeper_k8s_operator.Events.Upgrade.Keeps.{on_pebble_ready_upgrade-KeepsRestore}
use zookeeper_k8s_operator.Events.Hooks.{
  Handler, Call, handle, run, cluster_handler, pebble_ready_handler, install_handler,
  restart_handler, secret_handler, restore_dispatch_handler, restore_handler, credentials_handler,
  credentials_gone_handler, create_backup_handler, list_backups_handler, get_password_handler,
  set_password_handler, certificates_created_handler, certificates_joined_handler,
  certificate_available_handler, certificate_expiring_handler, certificates_broken_handler,
  set_private_key_handler, client_updated_handler, client_broken_handler, upgrade_handler,
}

-- the two handlers that move a restore on
unfoldable pub in_restore_flow : Handler → Bool
in_restore_flow restore_dispatch_handler = true
in_restore_flow (restore_handler id in_bucket) = true
in_restore_flow _ = false

pub handle-KeepsRestore :
    (o : Observed) (h : Handler) → in_restore_flow h ≡ false → KeepsRestore (handle o h)
unfolding handle in_restore_flow
handle-KeepsRestore o cluster_handler e = on_cluster_relation_changed-KeepsRestore o
handle-KeepsRestore o pebble_ready_handler e = on_zookeeper_pebble_ready-KeepsRestore o
handle-KeepsRestore o install_handler e = on_install-KeepsRestore o
handle-KeepsRestore o restart_handler e = on_restart-KeepsRestore o
handle-KeepsRestore o (secret_handler label own_label) e =
    on_secret_changed-KeepsRestore o label own_label
handle-KeepsRestore o restore_dispatch_handler e = cc
handle-KeepsRestore o (restore_handler id in_bucket) e = cc
handle-KeepsRestore o (credentials_handler parameters answer) e =
    on_s3_credentials_changed-KeepsRestore o parameters answer
handle-KeepsRestore o credentials_gone_handler e = on_s3_credentials_gone-KeepsRestore o
handle-KeepsRestore o create_backup_handler e = on_create_backup_action-KeepsRestore o
handle-KeepsRestore o (list_backups_handler listed dumps) e =
    on_list_backups_action-KeepsRestore o listed dumps
handle-KeepsRestore o (get_password_handler user) e = get_password_action-KeepsRestore user
handle-KeepsRestore o (set_password_handler username password) e =
    set_password_action-KeepsRestore o username password
handle-KeepsRestore o certificates_created_handler e = on_certificates_created-KeepsRestore o
handle-KeepsRestore o certificates_joined_handler e = on_certificates_joined-KeepsRestore o
handle-KeepsRestore o (certificate_available_handler event) e =
    on_certificate_available-KeepsRestore o event
handle-KeepsRestore o certificate_expiring_handler e = on_certificate_expiring-KeepsRestore o
handle-KeepsRestore o certificates_broken_handler e = on_certificates_broken-KeepsRestore o
handle-KeepsRestore o (set_private_key_handler key) e = set_tls_private_key-KeepsRestore o key
handle-KeepsRestore o client_updated_handler e = on_client_relation_updated-KeepsRestore o
handle-KeepsRestore o (client_broken_handler relation_id) e =
    on_client_relation_broken-KeepsRestore o relation_id
handle-KeepsRestore o (upgrade_handler entries) e = on_pebble_ready_upgrade-KeepsRestore o entries

pub run-KeepsRestore :
    (calls : List Call)
    → all (λ (call : Call). not (in_restore_flow call.1)) calls ≡ true
    → KeepsRestore (run calls)
unfolding run
run-KeepsRestore [] apart = KeepsFields-done
run-KeepsRestore ((o, h) ∷ calls) apart =
    let (first, rest) = both (in_restore_flow h) apart in
    KeepsFields-then (handle o h) (run calls) (handle-KeepsRestore o h first)
      (run-KeepsRestore calls rest)
  where
    both : (a : Bool) {b : Bool} → not a && b ≡ true → (a ≡ false) × (b ≡ true)
    both a k = (ground (arith, k), ground (arith, k))

-- The facts of a restore that a unit sees are the same, and so are the other units.
pub record SameRestore (s t : ClusterState) : Type 0 where
  pub peers : t.peers ≡ s.peers
  pub wanted : Models.App.id_to_restore (cluster t) ≡ Models.App.id_to_restore (cluster s)
  pub instructed :
      Models.App.restore_instruction (cluster t) ≡ Models.App.restore_instruction (cluster s)
  pub reached :
      Models.Server.restore_progress (unit_server t)
      ≡ Models.Server.restore_progress (unit_server s)

SameRestore-fields : {s t : ClusterState} → SameFields is_restore_key s t → SameRestore s t
unfolding Models.App.id_to_restore Models.App.restore_instruction Models.Server.restore_progress
    get_or
SameRestore-fields {s} {t} k = elim (Bool-cases s.peer_relation) [
  | inl related ↦ record {
    peers = k.peers;
    wanted = rw (k.related, related, k.app "id-to-restore" refl) refl;
    instructed = rw (k.related, related, k.app "restore-instruction" refl) refl;
    reached = rw (k.related, related, k.own "restore-progress" refl) refl;
  }
  | inr alone ↦ record {
    peers = k.peers;
    wanted = rw (k.related, alone) refl;
    instructed = rw (k.related, alone) refl;
    reached = rw (k.related, alone) refl;
  }
]

-- A hook that runs neither handler of the restore flow, whichever others it runs and whether it
-- returns or raises: the id to restore, the instruction and the unit's progress are as before, and so
-- are the other units.
pub run-SameRestore :
    (calls : List Call) (c : Charm)
    → all (λ (call : Call). not (in_restore_flow call.1)) calls ≡ true
    → SameRestore c.state (run calls c).1.state
run-SameRestore calls c apart = SameRestore-fields ((run-KeepsRestore calls apart).at c)
