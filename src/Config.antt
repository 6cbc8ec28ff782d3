-- ===== src/Config.antt =====
-- What `ConfigManager` of src/managers/config.py builds.
pub mod Jaas
pub mod Changes
mod Tests
use Prim.Native.String.{◌++◌ as cat}
use zookeeper_k8s_operator.Base.{
  ℕ, String, Bool, not, ◌&&◌, Option, none, some, List, [], ◌∷◌, ◌++◌, str_eq, if◌then◌else◌, keep,
  first,
}
use zookeeper_k8s_operator.Text.{str, str_in, truthy, split, join}
use zookeeper_k8s_operator.Literals.{LogLevel, info, warning, error, debug}
use zookeeper_k8s_operator.Models
use zookeeper_k8s_operator.State.{ClusterState, cluster, unit_server}
use zookeeper_k8s_operator.Workload.{
  Files, read, data_dir, datalog_dir, properties_path, dynamic_path, jaas_path, keystore_path,
  truststore_path, jmx_prometheus_javaagent, jmx_prometheus_config,
}

-- `CharmConfig` of src/core/structured_config.py, whose limits are validated to be positive.
pub record CharmConfig : Type 0 where
  pub init_limit : ℕ
  pub sync_limit : ℕ
  pub tick_time : ℕ
  pub log_level_option : LogLevel

abbrev pub default_properties : String
default_properties =
    "\nsyncEnabled=true\nmaxClientCnxns=60\nminSessionTimeout=4000\nmaxSessionTimeout=40000\nautopurge.snapRetainCount=3\nautopurge.purgeInterval=0\nreconfigEnabled=true\nstandaloneEnabled=false\n4lw.commands.whitelist=mntr,srvr,stat,ruok\nquorum.auth.enableSasl=true\nquorum.auth.learnerRequireSasl=true\nquorum.auth.serverRequireSasl=true\nauthProvider.sasl=org.apache.zookeeper.server.auth.SASLAuthenticationProvider\nenforce.auth.enabled=true\nenforce.auth.schemes=sasl,digest\naudit.enable=true\nadmin.serverAddress=localhost\n"

abbrev tls_properties : String
tls_properties =
    "\nsecureClientPort=2182\nssl.clientAuth=none\nssl.quorum.clientAuth=none\nclientCnxnSocket=org.apache.zookeeper.ClientCnxnSocketNetty\nserverCnxnFactory=org.apache.zookeeper.server.NettyServerCnxnFactory\nssl.trustStore.type=JKS\nssl.keyStore.type=PKCS12\nsslQuorumReloadCertFiles=true\nclient.certReload=true\nssl.enabledProtocols=TLSv1.3,TLSv1.2\n"

-- the level's Java name
unfoldable pub log_level : LogLevel → String
log_level info = "INFO"
log_level warning = "WARN"
log_level error = "ERROR"
log_level debug = "DEBUG"

unfoldable pub server_jvmflags : CharmConfig → List String
unfolding log_level
server_jvmflags c =
    cat "-Dcharmed.zookeeper.log.level=" (log_level c.log_level_option)
    ∷ "-Dzookeeper.requireClientAuthScheme=sasl"
    ∷ "-Dzookeeper.superUser=super"
    ∷ cat "-Djava.security.auth.login.config=" jaas_path
    ∷ []

unfoldable pub jmx_jvmflags : List String
unfolding str
jmx_jvmflags =
    "-Dcom.sun.management.jmxremote"
    ∷ cat "-javaagent:"
        (cat jmx_prometheus_javaagent (cat "=" (cat (str 9998) (cat ":" jmx_prometheus_config))))
    ∷ []

unfoldable pub metrics_exporter_config : List String
unfolding str
metrics_exporter_config =
    "metricsProvider.className=org.apache.zookeeper.metrics.prometheus.PrometheusMetricsProvider"
    ∷ cat "metricsProvider.httpPort=" (str 7000)
    ∷ []

-- the line that the running server keeps in its properties, or the default
unfoldable pub current_dynamic_config_file : Files → String
unfolding read str_in
current_dynamic_config_file files =
    elim (first (str_in "dynamicConfigFile") (read properties_path files)) [
      | none ↦ cat "dynamicConfigFile=" dynamic_path
      | some line ↦ line
    ]

unfoldable pub limit_properties : CharmConfig → List String
unfolding str
limit_properties c =
    cat "initLimit=" (str c.init_limit)
    ∷ cat "syncLimit=" (str c.sync_limit)
    ∷ cat "tickTime=" (str c.tick_time)
    ∷ []

unfoldable pub base_properties : CharmConfig → Files → List String
unfolding limit_properties split metrics_exporter_config current_dynamic_config_file
base_properties c files =
    limit_properties c
    ++ (split 10 default_properties
        ++ ((cat "dataDir=" data_dir
              ∷ cat "dataLogDir=" datalog_dir
              ∷ current_dynamic_config_file files
              ∷ [])
            ++ metrics_exporter_config))

unfoldable pub ssl_properties : ClusterState → List String
unfolding split
ssl_properties s =
    split 10 tls_properties
    ++ (cat "ssl.keyStore.location=" keystore_path
        ∷ cat "ssl.keyStore.password=" keystore
        ∷ cat "ssl.quorum.keyStore.location=" keystore_path
        ∷ cat "ssl.quorum.keyStore.password=" keystore
        ∷ cat "ssl.trustStore.location=" truststore_path
        ∷ cat "ssl.trustStore.password=" truststore
        ∷ cat "ssl.quorum.trustStore.location=" truststore_path
        ∷ cat "ssl.quorum.trustStore.password=" truststore
        ∷ [])
  where
    keystore : String
    keystore = Models.Server.keystore_password (unit_server s)

    truststore : String
    truststore = Models.Server.truststore_password (unit_server s)

unfoldable pub zookeeper_properties : CharmConfig → ClusterState → Files → List String
unfolding base_properties ssl_properties truthy
zookeeper_properties c s files =
    let base = base_properties c files in
    let properties = if Models.App.tls (cluster s) then base ++ ssl_properties s else base in
    let switching =
      if Models.App.switching_encryption (cluster s)
      then properties ++ ("portUnification=true" ∷ [])
      else properties in
    if str_eq (Models.App.quorum (cluster s)) "ssl"
      && truthy (Models.Server.certificate (unit_server s))
    then switching ++ ("sslQuorum=true" ∷ [])
    else switching

unfoldable pub build_static_properties : List String → List String
unfolding str_in
build_static_properties =
    keep (λ prop. not (str_in "clientPort" prop) && not (str_in "secureClientPort" prop))
