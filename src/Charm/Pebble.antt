-- ===== src/Charm/Pebble.antt =====
-- The Pebble layer: `_layer` of src/charm.py.
use Prim.Native.String.{◌++◌ as cat}
use zookeeper_k8s_operator.Base.{
  String, ◌≡◌, refl, true, List, [], ◌∷◌, ◌++◌, str_eq, if◌then◌else◌,
}
use zookeeper_k8s_operator.Text.{str, join, truthy}
use zookeeper_k8s_operator.Literals.{LogLevel, info, warning, error, debug, client_port}
use zookeeper_k8s_operator.Databag.{Databag, get}
use zookeeper_k8s_operator.Models.Server.{internal_address}
use zookeeper_k8s_operator.State.{ClusterState, unit_server}
use zookeeper_k8s_operator.Workload.{Files, binaries_path, conf_path}
use zookeeper_k8s_operator.Workload.Container.{Layer, PebbleService, PebbleCheck}
use zookeeper_k8s_operator.Config.{CharmConfig, log_level, server_jvmflags, jmx_jvmflags}
use zookeeper_k8s_operator.Config.Changes.{set_server_jvmflags}
use zookeeper_k8s_operator.Config.Changes.Environment.{
  is_variable, environment, over, get-update_environment,
}

abbrev pub container_name : String
container_name = "zookeeper"

unfoldable pub layer : CharmConfig → ClusterState → Layer
unfolding join server_jvmflags jmx_jvmflags str internal_address
layer c s = record {
  summary = "zookeeper layer";
  description = "Pebble config layer for zookeeper";
  services = (container_name, service) ∷ [];
  checks = (container_name, check) ∷ [];
}
  where
    service : PebbleService
    service = record {
      override = "replace";
      summary = "zookeeper";
      command =
          cat binaries_path (cat "/bin/zkServer.sh --config " (cat conf_path " start-foreground"));
      startup = "enabled";
      environment = ("SERVER_JVMFLAGS", join " " (server_jvmflags c ++ jmx_jvmflags)) ∷ [];
    }

    check : PebbleCheck
    check = record {
      override = "replace";
      level = "alive";
      exec_command =
          cat "echo ruok | nc "
            (cat (internal_address (unit_server s)) (cat " " (str client_port)));
    }

-- the environment of a layer's service
unfoldable pub service_environment : String → Layer → Databag
service_environment name l = of_services l.services
  where
    of_services : List (String × PebbleService) → Databag
    of_services [] = []
    of_services ((n, service) ∷ rest) =
        let later = of_services rest in if str_eq n name then service.environment else later

flags_variable :
    (level : LogLevel) (c : CharmConfig)
    → c.log_level_option ≡ level
    → is_variable ("SERVER_JVMFLAGS", join " " (server_jvmflags c ++ jmx_jvmflags)) ≡ true
unfolding is_variable join server_jvmflags jmx_jvmflags log_level str truthy
flags_variable info c e = rw e refl
flags_variable warning c e = rw e refl
flags_variable error c e = rw e refl
flags_variable debug c e = rw e refl

-- Once the JVM flags are written, the variables of the environment file are, key by key, those of the service's
-- environment in the Pebble layer, over those that the file had before.
pub get-set_server_jvmflags :
    (c : CharmConfig) (s : ClusterState) (files : Files) (j : String)
    → get j (environment (set_server_jvmflags c files))
      ≡ over (get j (service_environment container_name (layer c s))) (get j (environment files))
unfolding set_server_jvmflags layer service_environment
get-set_server_jvmflags c s files j =
    get-update_environment (("SERVER_JVMFLAGS", join " " (server_jvmflags c ++ jmx_jvmflags)) ∷ [])
      files j ((refl, tt), (flags_variable c.log_level_option c refl, tt))
