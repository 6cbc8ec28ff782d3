-- ===== src/Charm/Lifecycle/Unhealthy.antt =====
-- The state that `_restart` of src/charm.py leaves behind.
use zookeeper_k8s_operator.Base.{
  ◌≡◌, refl, ap, ◌∙◌, ◌∷◌, [], ◌++◌, List, inl, inr, Bool, true, false, Bool-cases, arith, all,
  String, if◌then◌else◌, Option, some,
}
use zookeeper_k8s_operator.Text.{truthy}
use zookeeper_k8s_operator.Literals.{active, status_base}
use zookeeper_k8s_operator.Databag.{get, or_default, get_or}
use zookeeper_k8s_operator.Databag.Update.{get_or-update, overlay}
use zookeeper_k8s_operator.Models
use zookeeper_k8s_operator.State.{ClusterState, cluster, unit_server, servers}
use zookeeper_k8s_operator.State.Health.{healthy, stable, all_rotated}
use zookeeper_k8s_operator.Charm.{Charm, Observed}
use zookeeper_k8s_operator.Charm.Monad.{set_status, update_unit, write_unit}
use zookeeper_k8s_operator.Charm.Writes.{unit_data-write}
use zookeeper_k8s_operator.Charm.Lifecycle.{restarted_fields, on_restart}

flag :
    (b : Bool) (old : Option String)
    → truthy (or_default "" (overlay (some (if b then "true" else "")) old)) ≡ b
unfolding overlay truthy
flag true old = refl
flag false old = refl

-- The unit counts as rotated exactly when a rotation is under way.
password_rotated-restarted :
    (s : ClusterState)
    → s.peer_relation ≡ true
    → Models.Server.password_rotated (unit_server (write_unit (restarted_fields s) s))
      ≡ Models.App.rotate_passwords (cluster s)
unfolding Models.Server.password_rotated get Models.App.rotate_passwords overlay restarted_fields
password_rotated-restarted s related =
    ap (λ d. truthy (get_or "password-rotated" "" d))
      (unit_data-write (restarted_fields s) s related)
    ∙ ap truthy (
        get_or-update "password-rotated" "" (restarted_fields s) s.unit_data
          (unfold restarted_fields get in (refl, (refl, (refl, tt)))))
    ∙ flag (Models.App.rotate_passwords (cluster s)) (get "password-rotated" s.unit_data)

all_last :
    {A : Type 0} (p : A → Bool) (xs : List A) (x : A) → p x ≡ false → all p (xs ++ (x ∷ [])) ≡ false
all_last p [] x h = ground arith
all_last p (y ∷ ys) x h = ground (arith, all_last p ys x h)

not_rotated :
    (s : ClusterState)
    → s.peer_relation ≡ true
    → Models.App.rotate_passwords (cluster s) ≡ false
    → all_rotated (write_unit (restarted_fields s) s) ≡ false
unfolding all_rotated servers
not_rotated s related none =
    let own = password_rotated-restarted s related ∙ none in
    let after = write_unit (restarted_fields s) s in
    ground (
      arith,
      related,
      all_last Models.Server.password_rotated after.peers (unit_server after) own,
      still_related s,
    )
  where
    still_related :
        (s : ClusterState) → (write_unit (restarted_fields s) s).peer_relation ≡ s.peer_relation
    still_related s = unfold write_unit in ground arith

healthy-false :
    (s : ClusterState)
    → s.peer_relation ≡ true
    → healthy (write_unit (restarted_fields s) s) ≡ false
unfolding healthy
healthy-false s related = elim (Bool-cases (Models.App.rotate_passwords (cluster s))) [
  | inl rotating ↦ ground (arith, rotating, same_app s)
  | inr none ↦ ground (arith, not_rotated s related none)
]
  where
    same_app : (s : ClusterState) → cluster (write_unit (restarted_fields s) s) ≡ cluster s
    same_app s = unfold write_unit in ground arith

-- A restart of a related unit of a stable cluster leaves the cluster not healthy: the unit counts as rotated
-- only while a rotation of passwords is under way, and the cluster as healthy only while none is.
pub on_restart-unhealthy :
    (o : Observed) (c : Charm)
    → c.state.peer_relation ≡ true
    → stable c.state ≡ active
    → healthy (on_restart o c).1.state ≡ false
unfolding on_restart set_status update_unit status_base
on_restart-unhealthy o c related calm = rw calm (healthy-false c.state related)
