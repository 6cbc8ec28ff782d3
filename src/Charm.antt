-- ===== src/Charm.antt =====
-- One hook of one unit: the charm object of src/charm.py as an explicit state, with Python's
-- exceptions. The hook sees the outside world through `Observed`, reads and writes `Charm`, and
-- leaves a trace of its effects on the rest of the world, in order.
pub mod Pebble
pub mod Monad
mod Tests
pub mod Writes
pub mod Services
pub mod Startup
pub mod Clients
pub mod Reconcile
pub mod Changed
pub mod Lifecycle
use zookeeper_k8s_operator.Base.{ℕ, String, Bool, List, Outcome, ◌++◌, [], ◌∷◌, Option}
use zookeeper_k8s_operator.Literals.{Status, StatusBase}
use zookeeper_k8s_operator.Databag.{Databag}
use zookeeper_k8s_operator.State.{ClusterState}
use zookeeper_k8s_operator.Workload.{Files}
use zookeeper_k8s_operator.Backups.Files.{Call}
use zookeeper_k8s_operator.Config.{CharmConfig}

-- The access rights of a client, which become its SASL and its digest entry.
pub record Acl : Type 0 where
  pub username : String
  pub password : String
  pub can_read : Bool
  pub can_write : Bool
  pub can_create : Bool
  pub can_delete : Bool
  pub can_admin : Bool

pub data Effect : Type 0 where
  deferred : Effect
  start_service stop_service restart_service : Effect
  set_version acquire_lock : Effect
  remove_exposer apply_nodeport apply_loadbalancer : Effect
  update_client : ℕ → Databag → Effect
  expire_certificate : String → Effect
  write_store : String → String → Effect
  import_store reimport_store rename_store delete_store : String → Effect
  build_keystore remove_stores config_changed_event : Effect
  request_certificate : String → Effect
  renew_certificate : String → String → Effect
  remove_members add_members : List String → Effect
  create_znode : String → Acl → Effect
  set_acls : String → Acl → Effect
  on_disk : Call → Effect
  action_results : Databag → Effect
  action_failed : String → Effect
  create_backup create_bucket : Effect
  set_partition : ℕ → Effect
  upgrade_completed upgrade_failed : Effect

pub data ExecResult : Type 0 where
  succeeded already_exists exec_failed : ExecResult

-- The client of the ZooKeeper quorum, a library: `remove` and `add` answer the members that are
-- left, given the present ones.
pub record ZkAdmin : Type 0 where
  pub server_members : Outcome (List String)
  pub members_broadcasting : Outcome Bool
  pub members_syncing : Outcome Bool
  pub remove : List String → List String → Outcome (List String)
  pub add : List String → List String → Outcome (List String)
  pub leader_znodes : String → Outcome (List String)
  pub znode_call : Effect → Outcome (Unit {0})

-- What the handlers ask of the event that they handle.
pub record HookEvent : Type 0 where
  pub departing_self : Bool  -- its departing unit is this unit
  pub scale_event : Bool  -- it is a RelationDepartedEvent or a LeaderElectedEvent
  pub broken_relation : Option ℕ  -- the relation of a RelationBrokenEvent

-- What a hook learns from outside: the answers of Juju, of the container and of the service.
pub record Observed : Type 0 where
  pub is_leader : Bool
  pub container_can_connect : Bool
  pub idle : Bool  -- no upgrade is under way
  pub alive : Outcome Bool  -- whether the service runs, and whether it is healthy, or an exception
  pub healthy : Outcome Bool
  pub plan_is_current : Bool  -- the Pebble plan has the services of the charm's layer
  pub loads : String → List String  -- json.loads of a list of texts, with none for null
  pub dumps : List String → String
  pub fresh_password : String → String  -- a generated password, by the field it is for
  pub fresh_key : String
  pub fresh_csr : String → String  -- the request made with a private key
  pub keytool : Effect → ExecResult
  pub zk : ZkAdmin
  pub loads_map : String → Databag  -- json.loads of an object of texts
  pub dumps_map : Databag → String
  pub healthy_at : ℕ → Outcome Bool  -- the answers to repeated health checks, and their exceptions
  pub healthy_before : Outcome Bool  -- the answer to the check before a restart after an upgrade
  pub answer_to : Effect → Outcome (Unit {0})  -- the exceptions of calls of the container and its disk
  pub zk_at : ℕ → ZkAdmin  -- and of the quorum to repeated checks
  pub patch_accepted : ℕ → ℕ → Bool  -- the API accepts, at an attempt, the patch that sets the partition
  pub bind_address : String
  pub fqdn : String  -- socket.getfqdn()
  pub openssl_sans : Outcome String  -- the output of `openssl x509 -ext subjectAltName`
  pub event : HookEvent

pub record Charm : Type 0 where
  pub state : ClusterState
  pub config : CharmConfig
  pub files : Files
  pub status : StatusBase
  pub effects : List Effect

abbrev pub emit : Effect → Charm → Charm
emit e c = record c { effects = c.effects ++ (e ∷ []) }
