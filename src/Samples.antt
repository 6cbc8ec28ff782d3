-- ===== src/Samples.antt =====
-- A small application, for the tests of the other modules: two units and one client.
use zookeeper_k8s_operator.Base.{
  ℕ, String, Bool, true, false, ok, raised, other_error, none, List, [], ◌∷◌,
}
use zookeeper_k8s_operator.Literals.{Substrate, ExposeExternal, LogLevel, StatusBase}
use zookeeper_k8s_operator.Databag.{Databag}
use zookeeper_k8s_operator.Models.Server.{JujuUnit, ZkServer}
use zookeeper_k8s_operator.State.{ClusterState, K8sAnswers}
use zookeeper_k8s_operator.Config.{CharmConfig}
use zookeeper_k8s_operator.Charm.{Charm, Observed, ZkAdmin, HookEvent, ExecResult}

abbrev pub unit : ℕ → JujuUnit
unit n = record { app = "zk"; number = n }

abbrev pub server : ℕ → Databag → ZkServer
server n d = record { unit = unit n; substrate = Substrate.k8s; relation_data = d }

abbrev pub answers : K8sAnswers
answers = record {
  node_ip = λ s. ok "10.0.0.1";
  get_nodeport = λ auth. ok 30000;
  loadbalancer_ip = raised other_error;
}

-- unit 0, with unit 1 as its peer
abbrev pub two_units : Databag → Databag → Databag → ClusterState
two_units app own other = record {
  substrate = Substrate.k8s;
  peer_relation = true;
  app_data = app;
  unit = unit 0;
  unit_data = own;
  peers = server 1 other ∷ [];
  planned_units = 2;
  client_relations =
      record { id = 7; has_app = true; client_data = ("database", "/app") ∷ [] } ∷ [];
  expose_external = ExposeExternal.disabled;
  answers = answers;
}

abbrev pub config : CharmConfig
config = record {
  init_limit = 5;
  sync_limit = 2;
  tick_time = 2000;
  log_level_option = LogLevel.info;
}

abbrev pub charm : ClusterState → Charm
charm s = record {
  state = s;
  config = config;
  files = [];
  status = StatusBase.maintenance_status;
  effects = [];
}

abbrev pub zk : List String → ZkAdmin
zk members = record {
  server_members = ok members;
  members_broadcasting = ok true;
  members_syncing = ok false;
  remove = λ present gone. ok present;
  add = λ present new. ok present;
  leader_znodes = λ path. ok [];
  znode_call = λ e. ok tt;
}

abbrev pub event : HookEvent
event = record { departing_self = false; scale_event = false; broken_relation = none }

abbrev pub observed : Bool → Observed
observed leader = record {
  is_leader = leader;
  container_can_connect = true;
  idle = true;
  alive = ok true;
  healthy = ok true;
  plan_is_current = true;
  loads = λ s. [];
  dumps = λ l. "[]";
  fresh_password = λ user. "secret";
  fresh_key = "key";
  fresh_csr = λ key. "csr";
  keytool = λ e. ExecResult.succeeded;
  zk = zk [];
  loads_map = λ s. [];
  dumps_map = λ d. "{}";
  healthy_at = λ n. ok true;
  healthy_before = ok true;
  answer_to = λ e. ok tt;
  zk_at = λ n. zk [];
  patch_accepted = λ n partition. true;
  bind_address = "10.1.0.1";
  fqdn = "zk-0.example";
  openssl_sans = ok "";
  event = event;
}

-- and with the parameters of the storage
abbrev pub parameters : Databag
parameters =
    ("path", "zk")
    ∷ ("access-key", "a")
    ∷ ("secret-key", "s")
    ∷ ("region", "")
    ∷ ("endpoint", "https://s3.amazonaws.com")
    ∷ ("bucket", "b")
    ∷ []

abbrev pub storing : Bool → Observed
storing leader = record (observed leader) { loads_map = λ s. parameters }
