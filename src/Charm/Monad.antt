-- ===== src/Charm/Monad.antt =====
-- Handlers: a charm goes in, a result or an exception comes out, with the charm as it then is.
pub mod Keeps
pub mod Fields
pub mod Restoring
pub mod Adds
use zookeeper_k8s_operator.Base.{Error, Outcome, ok, raised, if◌then◌else◌}
use zookeeper_k8s_operator.Literals.{Status, status_base}
use zookeeper_k8s_operator.Databag
use zookeeper_k8s_operator.Databag.{Databag}
use zookeeper_k8s_operator.Models
use zookeeper_k8s_operator.State.{ClusterState, cluster}
use zookeeper_k8s_operator.Workload.{Files}
use zookeeper_k8s_operator.Charm.{Charm, Effect, emit}

abbrev pub M : Type 0 → Type 0
M A = Charm → Outcome A × Charm

abbrev continue : {A B : Type 0} → Outcome A → (A → M B) → M B
continue (ok a) f c = f a c
continue (raised e) f c = (raised e, c)

infixl 5 ◌>>=◌ ◌>>◌
abbrev pub ◌>>=◌ : {A B : Type 0} → M A → (A → M B) → M B
◌>>=◌ m f c = let r = m c in continue r.0 f r.1

abbrev pub ◌>>◌ : {B : Type 0} → M (Unit {0}) → M B → M B
◌>>◌ m k c = let r = m c in continue r.0 (λ _. k) r.1

abbrev pub pure : {A : Type 0} → A → M A
pure a c = (ok a, c)

abbrev pub done : M (Unit {0})
done c = (ok tt, c)

abbrev pub lift : {A : Type 0} → Outcome A → M A
lift r c = (r, c)

abbrev pub gets : {A : Type 0} → (Charm → A) → M A
gets f c = (ok (f c), c)

abbrev pub modify : (Charm → Charm) → M (Unit {0})
modify f c = (ok tt, f c)

abbrev pub act : Effect → M (Unit {0})
act e = modify (emit e)

abbrev pub set_files : (Files → Files) → M (Unit {0})
set_files f = modify (λ c. record c { files = f c.files })

abbrev recover : {A : Type 0} → (Error → M A) → Outcome A → M A
recover f (ok a) c = (ok a, c)
recover f (raised e) c = f e c

-- `try: m` with a handler, which re-raises what it does not catch
abbrev pub attempt : {A : Type 0} → M A → (Error → M A) → M A
attempt m f c = let r = m c in recover f r.0 r.1

-- `_set_status` of src/charm.py
unfoldable pub set_status : Status → M (Unit {0})
unfolding status_base
set_status s = modify (λ c. record c { status = status_base s })

-- `ZKCluster.update` on the charm's state
unfoldable pub write_app : Databag → ClusterState → ClusterState
write_app items s =
    if s.peer_relation
    then record s { app_data = (Models.App.update items (cluster s)).relation_data }
    else s

unfoldable pub update_app : Databag → M (Unit {0})
unfolding write_app
update_app items = modify (λ c. record c { state = write_app items c.state })

-- `RelationState.update` on the unit's own databag
unfoldable pub write_unit : Databag → ClusterState → ClusterState
write_unit items s =
    if s.peer_relation then record s { unit_data = Databag.update items s.unit_data } else s

unfoldable pub update_unit : Databag → M (Unit {0})
unfolding write_unit
update_unit items = modify (λ c. record c { state = write_unit items c.state })
