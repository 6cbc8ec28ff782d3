-- ===== src/Events/Restore/Network.antt =====
-- The restore flow of a whole application of the charm: the application's databag and those of its
-- units, changed by the hooks that Juju runs one at a time, in any order: any handler of src/charm.py
-- and src/events/*.py may run in one.
pub mod Lists
pub mod View
pub mod Handled
pub mod Simulation
pub mod Safety
mod Tests
use zookeeper_k8s_operator.Base.{
  ℕ, String, Bool, true, ◌≡◌, ◌≢◌, Option, some, List, map, get_elem?, set, ok,
}
use zookeeper_k8s_operator.Text.{truthy}
use zookeeper_k8s_operator.Literals.{RestoreStep, step_of_value}
use zookeeper_k8s_operator.Databag.{Databag, get_or}
use zookeeper_k8s_operator.State.{ClusterState, cluster, unit_server}
use zookeeper_k8s_operator.Charm.{Charm, Observed}
use zookeeper_k8s_operator.Events.Hooks.{Handler, JujuEvent, Call, run, hook_calls}
use zookeeper_k8s_operator.Events.Restore.Flow.{Flow}

-- the unit `i` has the `i`-th databag
pub record Network : Type 0 where
  pub app_data : Databag
  pub units : List Databag

-- The fields that the flow is about.
abbrev pub flag : Databag → Bool
unfolding truthy get_or
flag d = truthy (get_or "id-to-restore" "" d)

abbrev pub told : Databag → Option RestoreStep
unfolding step_of_value get_or
told d = step_of_value (get_or "restore-instruction" "" d)

abbrev pub step_done : Databag → Option RestoreStep
unfolding step_of_value get_or
step_done d = step_of_value (get_or "restore-progress" "" d)

-- What the unit `i` sees: the application's databag, its own, and every other unit's, in any order.
pub record IsView (net : Network) (i : ℕ) (s : ClusterState) : Type 0 where
  pub related : s.peer_relation ≡ true
  pub app : s.app_data ≡ net.app_data
  pub own : get_elem? net.units i ≡ some s.unit_data
  pub others :
      (j : ℕ) (d : Databag)
      → j ≢ i
      → get_elem? net.units j ≡ some d
      → (k : ℕ) × (get_elem? (map (λ server. server.relation_data) s.peers) k ≡ some d)

-- what the unit `i` leaves in the databags
unfoldable pub commit : ℕ → ClusterState → Network → Network
commit i s net = record {
  app_data = (cluster s).relation_data;
  units = set net.units i (unit_server s).relation_data;
}

-- One hook of the unit `i`. A hook that raises leaves the databags as they were: Juju discards what
-- it wrote.
pub data NetStep (net : Network) : Network → Type 0 where
  hook :
      (i : ℕ) (deferred emitted : List Call) (answers : Handler → Observed) (event : JujuEvent)
      (c : Charm) {after : Network}
      → IsView net i c.state
      → (run (hook_calls deferred answers event emitted) c).0 ≡ ok tt
      → after ≡ commit i (run (hook_calls deferred answers event emitted) c).1.state net
      → NetStep net after

pub data NetReach (net : Network) : Network → Type 0 where
  here : NetReach net net
  next : {mid after : Network} → NetReach net mid → NetStep mid after → NetReach net after

-- The databags say what the flow says.
pub record Abstracts (net : Network) (f : Flow) : Type 0 where
  pub under_way : flag net.app_data ≡ f.under_way
  pub instruction : told net.app_data ≡ some f.instruction
  pub progress : map step_done net.units ≡ map some f.progress
