-- ===== src/Charm/Reconcile/Switch.antt =====
-- When `update_quorum` of src/charm.py ends a switch of encryption.
use zookeeper_k8s_operator.Base.{
  String, ◌≡◌, refl, ap, ◌∙◌, true, false, [], ◌∷◌, Bool-cases, inl, inr, arith, if◌then◌else◌,
}
use zookeeper_k8s_operator.Text.{truthy}
use zookeeper_k8s_operator.Databag.{get, get_or}
use zookeeper_k8s_operator.Databag.Update.{overlay}
use zookeeper_k8s_operator.Models
use zookeeper_k8s_operator.Models.App.Update.{get_or-update_keys}
use zookeeper_k8s_operator.State.{ClusterState, cluster}
use zookeeper_k8s_operator.State.Health.{all_units_unified, all_units_quorum}
use zookeeper_k8s_operator.Charm.{Charm}
use zookeeper_k8s_operator.Charm.Monad.{update_app, write_app}
use zookeeper_k8s_operator.Charm.Writes.{app_data-write}
use zookeeper_k8s_operator.Charm.Reconcile.{finish_switch}

abbrev pub target : ClusterState → String
target s = if Models.App.tls (cluster s) then "ssl" else "non-ssl"

with_target : ClusterState → ClusterState
with_target s = write_app (("quorum", target s) ∷ []) s

switching-with_target :
    (s : ClusterState)
    → s.peer_relation ≡ true
    → Models.App.switching_encryption (cluster (with_target s))
      ≡ Models.App.switching_encryption (cluster s)
unfolding Models.App.switching_encryption with_target get overlay
switching-with_target s related =
    ap (λ d. truthy (get_or "switching-encryption" "" d))
      (app_data-write (("quorum", target s) ∷ []) s related)
    ∙ ap truthy (
        get_or-update_keys "switching-encryption" "" (("quorum", target s) ∷ []) s.app_data
          (refl, tt))
    ∙ ap (λ d. truthy (get_or "switching-encryption" "" d)) (plain s related)
  where
    plain : (s : ClusterState) → s.peer_relation ≡ true → s.app_data ≡ (cluster s).relation_data
    plain s related = ground (arith, related)

-- In a related unit, while a switch of encryption is under way, the function ends it only when every started unit runs
-- with unified ports, and every unit runs the encryption that the function has just set.
pub finish_switch_lem :
    (c : Charm)
    → c.state.peer_relation ≡ true
    → Models.App.switching_encryption (cluster c.state) ≡ true
    → Models.App.switching_encryption (cluster (finish_switch c).1.state) ≡ false
    → (all_units_unified c.state ≡ true)
      × (all_units_quorum (write_app (("quorum", target c.state) ∷ []) c.state) ≡ true)
unfolding finish_switch update_app with_target
finish_switch_lem c related switching over = elim (Bool-cases (all_units_unified c.state)) [
  | inr apart ↦ absurd (ground (arith, rw apart at over, switching))
  | inl unified ↦
      elim (Bool-cases (all_units_quorum (write_app (("quorum", target c.state) ∷ []) c.state))) [
        | inl same ↦ (unified, same)
        | inr mixed ↦ absurd (
            ground (
              arith,
              rw (unified, mixed) at over,
              switching,
              switching-with_target c.state related,
            ))
      ]
]
