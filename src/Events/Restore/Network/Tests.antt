-- ===== src/Events/Restore/Network/Tests.antt =====
-- Two units, with no data about a restore: the leader begins one.
use zookeeper_k8s_operator.Base.{
  ℕ, zero, suc, ◌≡◌, ◌≢◌, ◌⊎◌, inl, inr, refl, true, false, some, [], ◌∷◌, get_elem?, map,
}
use zookeeper_k8s_operator.Text.{truthy}
use zookeeper_k8s_operator.Literals.{not_started, clean, step_of_value, next_step}
use zookeeper_k8s_operator.Databag.{Databag, get, get_or}
use zookeeper_k8s_operator.State.{ClusterState}
use zookeeper_k8s_operator.Charm.{Observed}
use zookeeper_k8s_operator.Events.Backup.{on_restore_action}
use zookeeper_k8s_operator.Events.Hooks.{handle, run, observers, hook_calls, restore_action}
use zookeeper_k8s_operator.Events.Restore.Flow.{Flow, Inv}
use zookeeper_k8s_operator.Events.Restore.Network.{
  Network, IsView, commit, hook, NetReach, here, next, Abstracts,
}
use zookeeper_k8s_operator.Events.Restore.Network.Safety.{network_safe}
use zookeeper_k8s_operator.Models.App.{is_restore_in_progress, update}
use zookeeper_k8s_operator.State.Endpoints.{clients}
use zookeeper_k8s_operator.Samples.{two_units, charm, observed}

abbrev quiet : Network
quiet = record {
  app_data = ("s3-credentials", "x") ∷ [];
  units = [] ∷ (("restore-progress", "clean") ∷ []) ∷ [];
}

abbrev at_rest : Flow
at_rest = record {
  under_way = false;
  instruction = not_started;
  progress = not_started ∷ clean ∷ [];
}

abbrev leader_view : ClusterState
leader_view = two_units (("s3-credentials", "x") ∷ []) [] (("restore-progress", "clean") ∷ [])

leader_others :
    (j : ℕ) (d : Databag)
    → j ≢ 0
    → get_elem? quiet.units j ≡ some d
    → (k : ℕ) × (get_elem? (map (λ server. server.relation_data) leader_view.peers) k ≡ some d)
leader_others zero d h e = absurd (h refl)
leader_others (suc zero) d h e = (0, e)
leader_others (suc (suc j)) d h e = cc

leader_view-IsView : IsView quiet 0 leader_view
leader_view-IsView = record { related = refl; app = refl; own = refl; others = leader_others }

quiet-Abstracts : Abstracts quiet at_rest
unfolding truthy get_or get step_of_value
quiet-Abstracts = record { under_way = refl; instruction = refl; progress = refl }

at_rest-Inv : Inv at_rest
unfolding next_step
at_rest-Inv = record { at_rest = λ _. refl; in_step = (inl refl, (inr refl, tt)) }

abbrev leader : Observed
leader = record (observed true) { loads_map = λ s. ("bucket", "b") ∷ [] }

abbrev begun : Network
begun = record {
  app_data = ("s3-credentials", "x") ∷ ("id-to-restore", "b1") ∷ [];
  units = quiet.units;
}

begins : NetReach quiet begun
unfolding commit on_restore_action is_restore_in_progress get clients update handle run observers
    hook_calls
begins = next here (
    hook 0 [] [] (λ h. leader) (restore_action "b1" true) (charm leader_view) leader_view-IsView
      refl refl)

network_safe_example : (clean ≡ clean) ⊎ (clean ≡ not_started)
unfolding truthy get_or get step_of_value
network_safe_example =
    network_safe {k = not_started} {p = clean} 1 quiet-Abstracts at_rest-Inv begins refl refl refl
