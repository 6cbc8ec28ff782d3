-- ===== src/Config/Changes.antt =====
-- What `ConfigManager` of src/managers/config.py writes, and when it finds a change.
pub mod Differ
pub mod Written
pub mod Settled
pub mod Environment
use Prim.Native.String.{◌++◌ as cat}
use zookeeper_k8s_operator.Base.{
  String, Bool, true, false, not, ◌&&◌, ◌||◌, Option, none, some, List, [], ◌∷◌, ◌++◌, map, str_eq,
  if◌then◌else◌, all, any,
}
use zookeeper_k8s_operator.Text.{str, str_in, truthy, split_once, join, strip, splitlines}
use zookeeper_k8s_operator.Databag.{Databag, insert, insert_all}
use zookeeper_k8s_operator.Models
use zookeeper_k8s_operator.State.{ClusterState, unit_server, servers}
use zookeeper_k8s_operator.Workload.{
  Files, read, write, properties_path, dynamic_path, jaas_path, client_jaas_path, myid_path,
  environment_path,
}
use zookeeper_k8s_operator.Config.{
  CharmConfig, log_level, server_jvmflags, jmx_jvmflags, zookeeper_properties,
  build_static_properties,
}
use zookeeper_k8s_operator.Config.Jaas.{jaas_config, client_jaas_config}

-- set(xs) ^ set(ys) is not empty
unfoldable pub sets_differ : List String → List String → Bool
sets_differ xs ys = not (all (λ x. any (str_eq x) ys) xs) || not (all (λ y. any (str_eq y) xs) ys)

-- the variables of the lines `key=value`; a line with an empty key is dropped
unfoldable pub env_of : List String → Databag → Databag
unfolding split_once truthy insert
env_of [] d = d
env_of (line ∷ rest) d =
    let (key, value) = split_once b'=' line in
    env_of rest (if truthy key then insert key (elim value [ none ↦ "" | some v ↦ v ]) d else d)

unfoldable pub env_lines : Databag → List String
env_lines [] = []
env_lines ((key, value) ∷ d) = cat key (cat "=" value) ∷ env_lines d

unfoldable pub update_environment : Databag → Files → Files
unfolding env_of env_lines insert_all join read write
update_environment env files =
    write (join "\n" (env_lines (insert_all env (env_of (read environment_path files) []))))
      environment_path files

unfoldable pub set_server_jvmflags : CharmConfig → Files → Files
unfolding update_environment join server_jvmflags jmx_jvmflags
set_server_jvmflags c files =
    update_environment (("SERVER_JVMFLAGS", join " " (server_jvmflags c ++ jmx_jvmflags)) ∷ [])
      files

unfoldable pub set_zookeeper_properties : CharmConfig → ClusterState → Files → Files
unfolding join write
set_zookeeper_properties c s files =
    write (join "\n" (zookeeper_properties c s files)) properties_path files

unfoldable pub set_jaas_config : ClusterState → Files → Files
unfolding write
set_jaas_config s files = write (jaas_config s) jaas_path files

unfoldable pub set_client_jaas_config : ClusterState → Files → Files
unfolding write
set_client_jaas_config s files = write (client_jaas_config s) client_jaas_path files

unfoldable pub set_zookeeper_dynamic_properties : String → Files → Files
unfolding write
set_zookeeper_dynamic_properties servers files = write servers dynamic_path files

unfoldable pub set_zookeeper_myid : ClusterState → Files → Files
unfolding write str
set_zookeeper_myid s files = write (str (Models.Server.server_id (unit_server s))) myid_path files

-- the lines for the hosts, and none at all where a server lacks a part
hosts_entries : List Models.Server.ZkServer → Option (List String)
unfolding truthy
hosts_entries [] = some []
hosts_entries (server ∷ rest) =
    let ip = Models.Server.ip server in
    let hostname = Models.Server.hostname server in
    let fqdn = Models.Server.fqdn server in
    let entries = hosts_entries rest in
    if not (truthy ip && (truthy hostname && truthy fqdn))
    then none
    else with_line (cat ip (cat " " (cat fqdn (cat " " hostname)))) entries
  where
    with_line : String → Option (List String) → Option (List String)
    with_line line none = none
    with_line line (some lines) = some (line ∷ lines)

unfoldable pub etc_hosts_entries : ClusterState → List String
unfolding hosts_entries servers
etc_hosts_entries s = elim (hosts_entries (servers s)) [ none ↦ [] | some entries ↦ entries ]

unfoldable pub set_etc_hosts : ClusterState → Files → Files
unfolding join write
set_etc_hosts s files = write (join "\n" (etc_hosts_entries s)) "/etc/hosts" files

unfoldable pub properties_changed : CharmConfig → ClusterState → Files → Bool
unfolding sets_differ read
properties_changed c s files =
    sets_differ (build_static_properties (read properties_path files))
      (build_static_properties (zookeeper_properties c s files))

unfoldable pub jaas_changed : ClusterState → Files → Bool
unfolding sets_differ read strip splitlines
jaas_changed s files =
    sets_differ (map strip (read jaas_path files)) (map strip (splitlines (jaas_config s)))

unfoldable pub log_level_changed : CharmConfig → Files → Bool
unfolding str_in join read
log_level_changed c files =
    not (str_in (log_level c.log_level_option) (join "" (read environment_path files)))

-- The result, and the files after the changed ones are written.
unfoldable pub config_changed : CharmConfig → ClusterState → Files → Bool × Files
config_changed c s files =
    let properties = properties_changed c s files in
    let jaas = jaas_changed s files in
    let level = log_level_changed c files in
    let with_properties = if properties then set_zookeeper_properties c s files else files in
    let with_jaas =
      if jaas
      then set_client_jaas_config s (set_jaas_config s with_properties)
      else with_properties in
    if not (properties || (jaas || level))
    then (false, files)
    else (true, if level then set_server_jvmflags c with_jaas else with_jaas)
