-- ===== src/Events/Hooks.antt =====
-- Which handlers a hook of Juju runs, in which order: the registrations of src/charm.py and of
-- src/events/*.py, and the handlers run one after the other on the charm's state.
pub mod Keeps
mod Quiet
pub mod Tests
use zookeeper_k8s_operator.Base.{ℕ, String, Bool, Option, List, [], ◌∷◌, ◌++◌, map, Outcome}
use zookeeper_k8s_operator.Databag.{Databag}
use zookeeper_k8s_operator.Backups.{BackupMetadata}
use zookeeper_k8s_operator.Charm.{Observed}
use zookeeper_k8s_operator.Charm.Monad.{M, ◌>>◌, done}
use zookeeper_k8s_operator.Charm.Changed.{on_cluster_relation_changed, on_secret_changed}
use zookeeper_k8s_operator.Charm.Lifecycle.{on_install, on_zookeeper_pebble_ready, on_restart}
use zookeeper_k8s_operator.Events.Passwords.{get_password_action, set_password_action}
use zookeeper_k8s_operator.Events.Provider.{on_client_relation_updated, on_client_relation_broken}
use zookeeper_k8s_operator.Events.Certificates.{
  NewCertificate, on_certificates_created, on_certificates_joined, on_certificate_available,
  on_certificate_expiring, on_certificates_broken, set_tls_private_key,
}
use zookeeper_k8s_operator.Events.Backup.{
  BucketAnswer, on_s3_credentials_changed, on_s3_credentials_gone, on_create_backup_action,
  on_list_backups_action, on_restore_action,
}
use zookeeper_k8s_operator.Events.Restore.{restore_event_dispatch}
use zookeeper_k8s_operator.Events.Upgrade.{ProvidedCertificate, on_pebble_ready_upgrade}

-- A handler, with what it takes from its event: what follows `self.` in the registrations.
pub data Handler : Type 0 where
  cluster_handler pebble_ready_handler install_handler restart_handler : Handler
  secret_handler : (label : Option String) (own_label : String) → Handler
  restore_dispatch_handler : Handler
  restore_handler : (id : String) (in_bucket : Bool) → Handler
  credentials_handler : (parameters : Databag) (answer : BucketAnswer) → Handler
  credentials_gone_handler create_backup_handler : Handler
  list_backups_handler :
      (listed : Outcome (List BackupMetadata)) (dumps : List BackupMetadata → String) → Handler
  get_password_handler : (user : String) → Handler
  set_password_handler : (username password : Option String) → Handler
  certificates_created_handler certificates_joined_handler : Handler
  certificate_available_handler : (event : NewCertificate) → Handler
  certificate_expiring_handler certificates_broken_handler : Handler
  set_private_key_handler : (key : Option String) → Handler
  client_updated_handler : Handler
  client_broken_handler : (relation_id : ℕ) → Handler
  upgrade_handler : (entries : Option (List ProvidedCertificate)) → Handler

-- The events that the charm observes. `run_with_lock` is the turn that the library of rolling
-- operations gives to its callback, and the events of S3 and of the certificates are emitted by their
-- libraries.
pub data JujuEvent : Type 0 where
  install update_status start zookeeper_pebble_ready leader_elected config_changed : JujuEvent
  upgrade_charm : (entries : Option (List ProvidedCertificate)) → JujuEvent
  secret_changed : (label : Option String) (own_label : String) → JujuEvent
  cluster_relation_changed cluster_relation_joined cluster_relation_departed : JujuEvent
  run_with_lock : JujuEvent
  credentials_changed : (parameters : Databag) (answer : BucketAnswer) → JujuEvent
  credentials_gone create_backup_action : JujuEvent
  list_backups_action :
      (listed : Outcome (List BackupMetadata)) (dumps : List BackupMetadata → String) → JujuEvent
  restore_action : (id : String) (in_bucket : Bool) → JujuEvent
  get_super_password_action get_sync_password_action : JujuEvent
  set_password_action_event : (username password : Option String) → JujuEvent
  certificates_relation_created certificates_relation_joined : JujuEvent
  certificate_available : (event : NewCertificate) → JujuEvent
  certificate_expiring certificates_relation_broken : JujuEvent
  set_tls_private_key_action : (key : Option String) → JujuEvent
  client_relation_changed : JujuEvent
  client_relation_broken : (relation_id : ℕ) → JujuEvent

-- One list for each object that observes events, in the order in which `__init__` makes them.
backup_observers : JujuEvent → List Handler
backup_observers (credentials_changed parameters answer) =
    credentials_handler parameters answer ∷ []
backup_observers credentials_gone = credentials_gone_handler ∷ []
backup_observers create_backup_action = create_backup_handler ∷ []
backup_observers (list_backups_action listed dumps) = list_backups_handler listed dumps ∷ []
backup_observers (restore_action id in_bucket) = restore_handler id in_bucket ∷ []
backup_observers cluster_relation_changed = restore_dispatch_handler ∷ []
backup_observers _ = []

password_observers : JujuEvent → List Handler
password_observers get_super_password_action = get_password_handler "super" ∷ []
password_observers get_sync_password_action = get_password_handler "sync" ∷ []
password_observers (set_password_action_event username password) =
    set_password_handler username password ∷ []
password_observers _ = []

tls_observers : JujuEvent → List Handler
tls_observers certificates_relation_created = certificates_created_handler ∷ []
tls_observers certificates_relation_joined = certificates_joined_handler ∷ []
tls_observers (certificate_available event) = certificate_available_handler event ∷ []
tls_observers certificate_expiring = certificate_expiring_handler ∷ []
tls_observers certificates_relation_broken = certificates_broken_handler ∷ []
tls_observers (set_tls_private_key_action key) = set_private_key_handler key ∷ []
tls_observers _ = []

provider_observers : JujuEvent → List Handler
provider_observers client_relation_changed = client_updated_handler ∷ []
provider_observers (client_relation_broken relation_id) = client_broken_handler relation_id ∷ []
provider_observers _ = []

upgrade_observers : JujuEvent → List Handler
upgrade_observers (upgrade_charm entries) = upgrade_handler entries ∷ []
upgrade_observers _ = []

core_observers : JujuEvent → List Handler
core_observers install = install_handler ∷ []
core_observers update_status = cluster_handler ∷ []
core_observers (upgrade_charm entries) = pebble_ready_handler ∷ []
core_observers start = pebble_ready_handler ∷ []
core_observers zookeeper_pebble_ready = pebble_ready_handler ∷ []
core_observers leader_elected = cluster_handler ∷ []
core_observers config_changed = cluster_handler ∷ []
core_observers (secret_changed label own_label) = secret_handler label own_label ∷ []
core_observers cluster_relation_changed = cluster_handler ∷ []
core_observers cluster_relation_joined = cluster_handler ∷ []
core_observers cluster_relation_departed = cluster_handler ∷ []
core_observers run_with_lock = restart_handler ∷ []
core_observers _ = []

unfoldable pub observers : JujuEvent → List Handler
unfolding backup_observers password_observers tls_observers provider_observers upgrade_observers
    core_observers
observers event =
    backup_observers event
    ++ password_observers event
    ++ tls_observers event
    ++ provider_observers event
    ++ upgrade_observers event
    ++ core_observers event

unfoldable pub handle : Observed → Handler → M (Unit {0})
unfolding restore_event_dispatch on_restore_action
handle o cluster_handler = on_cluster_relation_changed o
handle o pebble_ready_handler = on_zookeeper_pebble_ready o
handle o install_handler = on_install o
handle o restart_handler = on_restart o
handle o (secret_handler label own_label) = on_secret_changed o label own_label
handle o restore_dispatch_handler = restore_event_dispatch o
handle o (restore_handler id in_bucket) = on_restore_action o id in_bucket
handle o (credentials_handler parameters answer) = on_s3_credentials_changed o parameters answer
handle o credentials_gone_handler = on_s3_credentials_gone o
handle o create_backup_handler = on_create_backup_action o
handle o (list_backups_handler listed dumps) = on_list_backups_action o listed dumps
handle o (get_password_handler user) = get_password_action user
handle o (set_password_handler username password) = set_password_action o username password
handle o certificates_created_handler = on_certificates_created o
handle o certificates_joined_handler = on_certificates_joined o
handle o (certificate_available_handler event) = on_certificate_available o event
handle o certificate_expiring_handler = on_certificate_expiring o
handle o certificates_broken_handler = on_certificates_broken o
handle o (set_private_key_handler key) = set_tls_private_key o key
handle o client_updated_handler = on_client_relation_updated o
handle o (client_broken_handler relation_id) = on_client_relation_broken o relation_id
handle o (upgrade_handler entries) = on_pebble_ready_upgrade o entries

-- A handler that runs, and what it then learns from outside.
abbrev pub Call : Type 0
Call = Observed × Handler

-- the first exception ends the hook
unfoldable pub run : List Call → M (Unit {0})
unfolding handle
run [] = done
run ((o, h) ∷ calls) = handle o h >> run calls

-- The handlers of the events that earlier hooks deferred, those of the event itself, and those of
-- the events that are emitted meanwhile. The restart that the library of rolling operations may run
-- while it is asked for the lock stands behind the handler that asked.
unfoldable pub hook_calls : List Call → (Handler → Observed) → JujuEvent → List Call → List Call
unfolding observers
hook_calls deferred answers event emitted =
    deferred ++ map (λ h. (answers h, h)) (observers event) ++ emitted
