-- ===== src/State/Health.antt =====
-- The flags and statuses of src/core/cluster.py.
pub mod Stability
pub mod Steps
mod Tests
use zookeeper_k8s_operator.Base.{
  Bool, true, false, not, ◌&&◌, Option, none, some, List, [], ◌∷◌, Outcome, ok, raised, value_error,
  str_eq, if◌then◌else◌, all,
}
use zookeeper_k8s_operator.Text.{truthy}
use zookeeper_k8s_operator.Literals.{
  Status, active, not_all_related, not_all_ip, stale_quorum, ongoing_restore, not_all_added,
  not_all_quorum, switching_encryption, all_unified, RestoreStep, step_eq,
}
use zookeeper_k8s_operator.Models
use zookeeper_k8s_operator.Models.Server.{
  ZkServer, JujuUnit, unit_id, server_string, internal_address,
}
use zookeeper_k8s_operator.Models.App.{ZkCluster}
use zookeeper_k8s_operator.State.{
  ClusterState, cluster, servers, started_servers, all_units_related, all_servers_added,
}

unfoldable pub all_units_declaring_ip : ClusterState → Bool
unfolding servers truthy
all_units_declaring_ip s = all (λ server. truthy (Models.Server.ip server)) (servers s)

unfoldable pub stale_quorum? : ClusterState → Bool
stale_quorum? s =
    if not (all_units_related s) then false else if all_servers_added s then false else true

unfoldable pub all_rotated : ClusterState → Bool
unfolding servers
all_rotated s = all Models.Server.password_rotated (servers s)

unfoldable pub all_units_unified : ClusterState → Bool
unfolding started_servers
all_units_unified s =
    if not (all_units_related s) then false else all Models.Server.unified (started_servers s)

unfoldable pub all_units_quorum : ClusterState → Bool
unfolding servers
all_units_quorum s =
    if s.peer_relation
    then all (λ server. str_eq (Models.Server.quorum server) (Models.App.quorum (cluster s)))
        (servers s)
    else false

unfoldable pub all_installed : ClusterState → Status
all_installed s =
    if not (all_units_related s)
    then not_all_related
    else if not (all_units_declaring_ip s)
    then not_all_ip
    else active

unfoldable pub healthy : ClusterState → Bool
healthy s =
    all_servers_added s
    && (not (Models.App.rotate_passwords (cluster s))
        && (all_rotated s && not (Models.App.switching_encryption (cluster s))))

unfoldable pub stable : ClusterState → Status
stable s =
    if not (all_units_related s)
    then not_all_related
    else if stale_quorum? s
    then stale_quorum
    else if Models.App.is_restore_in_progress (cluster s)
    then ongoing_restore
    else if not (all_servers_added s)
    then not_all_added
    else active

unfoldable pub ready : ClusterState → Status
ready s =
    if not (all_units_quorum s)
    then not_all_quorum
    else if Models.App.switching_encryption (cluster s)
    then switching_encryption
    else if all_units_unified s
    then all_unified
    else stable s

-- the units' progress, one after the other up to the first that differs
unfoldable pub all_at_step : RestoreStep → List ZkServer → Outcome Bool
all_at_step current [] = ok true
all_at_step current (server ∷ rest) =
    let later = all_at_step current rest in
    of_progress later (Models.Server.restore_progress server)
  where
    of_progress : Outcome Bool → Option RestoreStep → Outcome Bool
    of_progress later none = raised value_error
    of_progress later (some step) = if step_eq step current then later else ok false

-- an instruction that is no step raises
unfoldable pub all_at_instruction : Option RestoreStep → List ZkServer → Outcome Bool
unfolding all_at_step
all_at_instruction none xs = raised value_error
all_at_instruction (some current) xs = all_at_step current xs

unfoldable pub is_next_restore_step_possible : ClusterState → Outcome Bool
unfolding servers all_at_instruction
is_next_restore_step_possible s =
    all_at_instruction (Models.App.restore_instruction (cluster s)) (servers s)

-- the progress is the instruction
unfoldable pub same_step : Option RestoreStep → Option RestoreStep → Bool
same_step (some a) (some b) = step_eq a b
same_step _ _ = false

-- all progress can be read, and is the instruction
unfoldable pub all_units_done : ClusterState → Bool
unfolding servers same_step
all_units_done s =
    all
      (λ server.
        same_step (Models.Server.restore_progress server)
          (Models.App.restore_instruction (cluster s)))
      (servers s)
