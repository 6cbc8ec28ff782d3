-- ===== src/Events/Restore/Rounds.antt =====
-- Rounds of hooks: every unit of an application runs a hook of a changed peer relation, in any order,
-- and the handlers of src/charm.py and src/events/backup.py are the ones that run.
pub mod Hook
pub mod Finish
mod Tests
use zookeeper_k8s_operator.Base.{
  ℕ, zero, suc, ◌<◌, ◌≡◌, ◌≢◌, Bool, true, not, ◌==◌, some, List, [], ◌∷◌, all, any, map, get_elem?,
  length, ok,
}
use zookeeper_k8s_operator.Databag.{Databag}
use zookeeper_k8s_operator.State.{ClusterState}
use zookeeper_k8s_operator.Charm.{Charm, Observed}
use zookeeper_k8s_operator.Events.Hooks.{
  Handler, Call, run, hook_calls, restore_dispatch_handler, cluster_relation_changed,
}
use zookeeper_k8s_operator.Events.Hooks.Keeps.{in_restore_flow}
use zookeeper_k8s_operator.Events.Restore.Network.{Network, IsView, commit}

-- the handlers are not of the restore flow
abbrev pub avoids_restore : List Call → Bool
avoids_restore calls = all (λ (call : Call). not (in_restore_flow call.1)) calls

-- The unit sees the databags of all other units, and no databag of any that is none.
pub record IsFullView (net : Network) (i : ℕ) (s : ClusterState) : Type 0 where
  pub view : IsView net i s
  pub known :
      (k : ℕ) (d : Databag)
      → get_elem? (map (λ server. server.relation_data) s.peers) k ≡ some d
      → (j : ℕ) × (j ≢ i) × (get_elem? net.units j ≡ some d)

-- One hook of the unit `i`, which returns. Handlers of other events may have been deferred to it, and
-- events may be emitted in it, but neither are those of the restore flow.
pub record Turn (leader : ℕ) (net : Network) (i : ℕ) (after : Network) : Type 0 where
  pub deferred : List Call
  pub emitted : List Call
  pub answers : Handler → Observed
  pub before : Charm
  pub sees : IsFullView net i before.state
  pub deferred_others : avoids_restore deferred ≡ true
  pub emitted_others : avoids_restore emitted ≡ true
  pub leads : (answers restore_dispatch_handler).is_leader ≡ (i == leader)
  pub returns :
      (run (hook_calls deferred answers cluster_relation_changed emitted) before).0 ≡ ok tt
  pub leaves :
      after
      ≡ commit i
          (run (hook_calls deferred answers cluster_relation_changed emitted) before).1.state
          net

-- Hooks of the units in the list, one after the other; the last one stands first.
pub data Hooks (leader : ℕ) (net : Network) : List ℕ → Network → Type 0 where
  none_yet : Hooks leader net [] net
  one_more :
      {i : ℕ} {is : List ℕ} {mid after : Network}
      → Hooks leader net is mid
      → Turn leader mid i after
      → Hooks leader net (i ∷ is) after

-- every unit of the network is in the list
abbrev pub IsFair : Network → List ℕ → Type 0
IsFair net is = (j : ℕ) → j < length net.units → any (λ i. i == j) is ≡ true

-- A number of rounds: in each one, every unit runs a hook at least once.
pub data Rounds (leader : ℕ) (net : Network) : ℕ → Network → Type 0 where
  no_round : Rounds leader net zero net
  one_round :
      {n : ℕ} {is : List ℕ} {mid after : Network}
      → Rounds leader net n mid
      → IsFair mid is
      → Hooks leader mid is after
      → Rounds leader net (suc n) after
