-- ===== src/Workload.antt =====
-- The container's files and paths: src/core/workload.py, and `read` and `write` of src/workload.py.
pub mod Admin
pub mod Container
mod Passwords
mod Tests
use Prim.Native.String.{◌++◌}
use zookeeper_k8s_operator.Base.{String, List, [], none, some}
use zookeeper_k8s_operator.Text.{split}
use zookeeper_k8s_operator.Databag.{Databag, get, insert}

-- The files that the operator pushes and pulls, by path.
abbrev pub Files : Type 0
Files = Databag

-- a missing file reads as no line at all
unfoldable pub read : String → Files → List String
unfolding get split
read path files = elim (get path files) [ none ↦ [] | some content ↦ split 10 content ]

unfoldable pub write : String → String → Files → Files
unfolding insert
write content path files = insert path content files

abbrev pub conf_path : String
conf_path = "/etc/zookeeper"

abbrev pub data_path : String
data_path = "/var/lib/zookeeper"

abbrev pub binaries_path : String
binaries_path = "/opt/zookeeper"

abbrev pub data_dir : String
data_dir = data_path ++ "/data"

abbrev pub datalog_dir : String
datalog_dir = data_path ++ "/data-log"

abbrev pub myid_path : String
myid_path = data_dir ++ "/myid"

abbrev pub properties_path : String
properties_path = conf_path ++ "/zoo.cfg"

abbrev pub dynamic_path : String
dynamic_path = conf_path ++ "/zookeeper-dynamic.properties"

abbrev pub jaas_path : String
jaas_path = conf_path ++ "/zookeeper-jaas.cfg"

abbrev pub client_jaas_path : String
client_jaas_path = conf_path ++ "/client-jaas.cfg"

abbrev pub jmx_prometheus_javaagent : String
jmx_prometheus_javaagent = binaries_path ++ "/lib/jmx_prometheus_javaagent.jar"

abbrev pub jmx_prometheus_config : String
jmx_prometheus_config = conf_path ++ "/jmx_prometheus.yaml"

abbrev pub server_key_path : String
server_key_path = conf_path ++ "/server.key"

abbrev pub ca_path : String
ca_path = conf_path ++ "/ca.pem"

abbrev pub certificate_path : String
certificate_path = conf_path ++ "/server.pem"

abbrev pub bundle_path : String
bundle_path = conf_path ++ "/bundle.pem"

abbrev pub truststore_path : String
truststore_path = conf_path ++ "/truststore.jks"

abbrev pub keystore_path : String
keystore_path = conf_path ++ "/keystore.p12"

abbrev pub environment_path : String
environment_path = "/etc/environment"
