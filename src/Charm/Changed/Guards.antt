-- ===== src/Charm/Changed/Guards.antt =====
-- The guards of `_on_cluster_relation_changed` of src/charm.py.
use zookeeper_k8s_operator.Base.{◌≡◌, refl, ◌⊎◌, inl, inr, true, false, Bool-cases, [], ◌∷◌, ◌++◌}
use zookeeper_k8s_operator.Models
use zookeeper_k8s_operator.State.{cluster}
use zookeeper_k8s_operator.Charm.{Charm, Observed, deferred}
use zookeeper_k8s_operator.Charm.Monad.{set_status}
use zookeeper_k8s_operator.Charm.Changed.{converge, on_cluster_relation_changed}

-- Only the unit's status has changed, and the event may be deferred.
pub record IsWaiting (c d : Charm) : Type 0 where
  pub state : d.state ≡ c.state
  pub files : d.files ≡ c.files
  pub effects : (d.effects ≡ c.effects) ⊎ (d.effects ≡ c.effects ++ (deferred ∷ []))

pub record MayConverge (o : Observed) (c : Charm) : Type 0 where
  pub connected : o.container_can_connect ≡ true
  pub related : c.state.peer_relation ≡ true
  pub no_restore : Models.App.is_restore_in_progress (cluster c.state) ≡ false
  pub no_upgrade : o.idle ≡ true

-- Either the handler changes nothing but the unit's status and at most defers the event, or the
-- container answers, the units are related, neither a restore nor an upgrade is under way, and the
-- handler goes on to start the server and update the quorum.
pub on_cluster_relation_changed-cases :
    (o : Observed) (c : Charm)
    → IsWaiting c (on_cluster_relation_changed o c).1
      ⊎ (MayConverge o c × (on_cluster_relation_changed o c ≡ converge o c))
unfolding on_cluster_relation_changed set_status
on_cluster_relation_changed-cases o c = elim (Bool-cases o.container_can_connect) [
  | inr down ↦ inl (rw down (record { state = refl; files = refl; effects = inr refl }))
  | inl up ↦ elim (Bool-cases c.state.peer_relation) [
    | inr alone ↦ inl (rw (up, alone) (record { state = refl; files = refl; effects = inl refl }))
    | inl related ↦ elim (Bool-cases (Models.App.is_restore_in_progress (cluster c.state))) [
      | inl busy ↦
          inl (rw (up, busy, related) (record { state = refl; files = refl; effects = inl refl }))
      | inr calm ↦ elim (Bool-cases o.idle) [
        | inr upgrading ↦ inl (
            rw (up, calm, upgrading, related)
              (record { state = refl; files = refl; effects = inr refl }))
        | inl idle ↦ inr (
          record { connected = up; related = related; no_restore = calm; no_upgrade = idle },
          rw (up, calm, idle, related) refl,
        )
      ]
    ]
  ]
]
