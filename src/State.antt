-- ===== src/State.antt =====
-- The state of the cluster as one unit sees it: `ClusterState` of src/core/cluster.py.
-- The servers form a Python set of objects that are all different: a list whose order is arbitrary.
pub mod Endpoints
pub mod Turns
pub mod Health
use zookeeper_k8s_operator.Base.{
  ℕ, String, Bool, false, Outcome, List, [], ◌∷◌, ◌++◌, ◌==◌, if◌then◌else◌, length, keep,
}
use zookeeper_k8s_operator.Literals.{Substrate, ExposeExternal}
use zookeeper_k8s_operator.Databag.{Databag}
use zookeeper_k8s_operator.Models
use zookeeper_k8s_operator.Models.Server.{ZkServer, JujuUnit}
use zookeeper_k8s_operator.Models.App.{ZkCluster}

-- What the Kubernetes API answers.
pub record K8sAnswers : Type 0 where
  pub node_ip : ZkServer → Outcome String
  pub get_nodeport : String → Outcome ℕ
  pub loadbalancer_ip : Outcome String

pub record ClientRelation : Type 0 where
  pub id : ℕ
  pub has_app : Bool
  pub client_data : Databag

pub record ClusterState : Type 0 where
  pub substrate : Substrate
  pub peer_relation : Bool
  pub app_data : Databag
  pub unit : JujuUnit
  pub unit_data : Databag
  pub peers : List ZkServer
  pub planned_units : ℕ
  pub client_relations : List ClientRelation
  pub expose_external : ExposeExternal
  pub answers : K8sAnswers

-- With no relation the data are an empty dictionary.
abbrev pub cluster : ClusterState → ZkCluster
cluster s = record {
  relation = s.peer_relation;
  relation_data = if s.peer_relation then s.app_data else [];
}

abbrev pub unit_server : ClusterState → ZkServer
unit_server s = record {
  unit = s.unit;
  substrate = s.substrate;
  relation_data = if s.peer_relation then s.unit_data else [];
}

unfoldable pub servers : ClusterState → List ZkServer
servers s = if s.peer_relation then s.peers ++ (unit_server s ∷ []) else []

unfoldable pub started_servers : ClusterState → List ZkServer
unfolding servers
started_servers s = keep Models.Server.started (servers s)

unfoldable pub all_units_related : ClusterState → Bool
unfolding servers
all_units_related s = length (servers s) == s.planned_units

unfoldable pub all_servers_added : ClusterState → Bool
unfolding servers
all_servers_added s =
    if s.peer_relation
    then length (Models.App.added_unit_ids (cluster s)) == length (servers s)
    else false
