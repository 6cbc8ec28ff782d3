-- ===== src/Charm/Monad/Fields.antt =====
-- Parts of a handler that leave some fields of the databags, and what a unit sees of the other units,
-- as they were, whatever else they write.
use zookeeper_k8s_operator.Base.{
  String, ◌≡◌, refl, ap, ◌∙◌, Bool, true, false, arith, Outcome, ok, raised, Error, if◌then◌else◌,
}
use zookeeper_k8s_operator.Literals.{Status}
use zookeeper_k8s_operator.Databag.{Databag, get}
use zookeeper_k8s_operator.Models.App.{update}
use zookeeper_k8s_operator.Models.App.Apart.{is_apart, get-update_keys_apart, get-update_apart}
use zookeeper_k8s_operator.State.{ClusterState}
use zookeeper_k8s_operator.Workload.{Files}
use zookeeper_k8s_operator.Charm.{Charm, Effect}
use zookeeper_k8s_operator.Charm.Monad.{
  M, ◌>>=◌, ◌>>◌, done, gets, act, lift, modify, set_files, attempt, recover, set_status,
  update_app, update_unit, write_app, write_unit,
}
use zookeeper_k8s_operator.Charm.Monad.Keeps.{KeepsState}

-- What a unit sees of the other units, and the fields of a restore, are the same.
pub record SameFields (kept : String → Bool) (s t : ClusterState) : Type 0 where
  pub related : t.peer_relation ≡ s.peer_relation
  pub peers : t.peers ≡ s.peers
  pub app : (key : String) → kept key ≡ true → get key t.app_data ≡ get key s.app_data
  pub own : (key : String) → kept key ≡ true → get key t.unit_data ≡ get key s.unit_data

-- whether the part returns or raises
pub record KeepsFields (kept : String → Bool) {A : Type 0} (m : M A) : Type 0 where
  pub at : (c : Charm) → SameFields kept c.state (m c).1.state

module _ {kept : String → Bool} where
  pub SameFields-same : {s t : ClusterState} → t ≡ s → SameFields kept s t
  SameFields-same e = record {
    related = ap (λ (u : ClusterState). u.peer_relation) e;
    peers = ap (λ (u : ClusterState). u.peers) e;
    app = λ key h. ap (λ (u : ClusterState). get key u.app_data) e;
    own = λ key h. ap (λ (u : ClusterState). get key u.unit_data) e;
  }

  pub SameFields-trans :
      {s t u : ClusterState} → SameFields kept s t → SameFields kept t u → SameFields kept s u
  SameFields-trans a b = record {
    related = b.related ∙ a.related;
    peers = b.peers ∙ a.peers;
    app = λ key h. b.app key h ∙ a.app key h;
    own = λ key h. b.own key h ∙ a.own key h;
  }

  pub KeepsFields-of : {A : Type 0} (m : M A) → KeepsState m → KeepsFields kept m
  KeepsFields-of m k = record { at = λ c. SameFields-same (k.at c) }

  module _ {A : Type 0} where
    pub KeepsFields-lift : (r : Outcome A) → KeepsFields kept (lift r)
    KeepsFields-lift r = record { at = λ c. SameFields-same refl }

    pub KeepsFields-gets : (f : Charm → A) → KeepsFields kept (gets f)
    KeepsFields-gets f = record { at = λ c. SameFields-same refl }

    pub KeepsFields-if :
        (b : Bool) (m n : M A)
        → KeepsFields kept m
        → KeepsFields kept n
        → KeepsFields kept (if b then m else n)
    KeepsFields-if true m n km kn = km
    KeepsFields-if false m n km kn = kn

    recovered :
        (f : Error → M A)
        → ((e : Error) → KeepsFields kept (f e))
        → (r : Outcome A) (c : Charm) → SameFields kept c.state (recover f r c).1.state
    recovered f kf (ok a) c = SameFields-same refl
    recovered f kf (raised e) c = (kf e).at c

    pub KeepsFields-attempt :
        (m : M A) (f : Error → M A)
        → KeepsFields kept m
        → ((e : Error) → KeepsFields kept (f e))
        → KeepsFields kept (attempt m f)
    KeepsFields-attempt m f km kf = record {
      at = λ c. SameFields-trans (km.at c) (recovered f kf (m c).0 (m c).1);
    }

  pub KeepsFields-done : KeepsFields kept done
  KeepsFields-done = record { at = λ c. SameFields-same refl }

  pub KeepsFields-act : (e : Effect) → KeepsFields kept (act e)
  KeepsFields-act e = record { at = λ c. SameFields-same refl }

  pub KeepsFields-set_status : (s : Status) → KeepsFields kept (set_status s)
  unfolding set_status
  KeepsFields-set_status s = record { at = λ c. SameFields-same refl }

  pub KeepsFields-set_files : (f : Files → Files) → KeepsFields kept (set_files f)
  KeepsFields-set_files f = record { at = λ c. SameFields-same refl }

  pub KeepsFields-modify :
      (f : Charm → Charm) → ((c : Charm) → (f c).state ≡ c.state) → KeepsFields kept (modify f)
  KeepsFields-modify f same = record { at = λ c. SameFields-same (same c) }

  module _ {A B : Type 0} where
    after_result :
        (f : A → M B)
        → ((a : A) → KeepsFields kept (f a))
        → (r : Outcome A) (c : Charm) → SameFields kept c.state ((lift r >>= f) c).1.state
    after_result f kf (ok a) c = (kf a).at c
    after_result f kf (raised e) c = SameFields-same refl

    pub KeepsFields-bind :
        (m : M A) (f : A → M B)
        → KeepsFields kept m
        → ((a : A) → KeepsFields kept (f a))
        → KeepsFields kept (m >>= f)
    KeepsFields-bind m f km kf = record {
      at = λ c. SameFields-trans (km.at c) (after_result f kf (m c).0 (m c).1);
    }

  -- the rest of a chain need only keep the fields for the results that there are
  pub KeepsFields-lift_bind :
      {A B : Type 0} (r : Outcome A) (f : A → M B)
      → ((a : A) → r ≡ ok a → KeepsFields kept (f a))
      → KeepsFields kept (lift r >>= f)
  KeepsFields-lift_bind (ok a) f kf = record { at = λ c. (kf a refl).at c }
  KeepsFields-lift_bind (raised e) f kf = record { at = λ c. SameFields-same refl }

  pub KeepsFields-then :
      {B : Type 0} (m : M (Unit {0})) (k : M B)
      → KeepsFields kept m
      → KeepsFields kept k
      → KeepsFields kept (m >> k)
  KeepsFields-then m k km kk = KeepsFields-bind m (λ _. k) km (λ _. kk)

  -- Writes of other fields.
  pub KeepsFields-update_app :
      (items : Databag) → is_apart kept items ≡ true → KeepsFields kept (update_app items)
  unfolding update_app
  KeepsFields-update_app items k = record { at = λ c. same items c.state k }
    where
      same :
          (items : Databag) (s : ClusterState)
          → is_apart kept items ≡ true
          → SameFields kept s (write_app items s)
      same items s k =
          unfold write_app update in
          record {
            related = ground arith;
            peers = ground arith;
            app = λ key h. ground (arith, get-update_keys_apart kept key items s.app_data h k);
            own = λ key h. ground arith;
          }

  pub KeepsFields-update_unit :
      (items : Databag) → is_apart kept items ≡ true → KeepsFields kept (update_unit items)
  unfolding update_unit
  KeepsFields-update_unit items k = record { at = λ c. same items c.state k }
    where
      same :
          (items : Databag) (s : ClusterState)
          → is_apart kept items ≡ true
          → SameFields kept s (write_unit items s)
      same items s k =
          unfold write_unit in
          record {
            related = ground arith;
            peers = ground arith;
            app = λ key h. ground arith;
            own = λ key h. ground (arith, get-update_apart kept key items s.unit_data h k);
          }

pub ruleset fields_rules = (
  KeepsFields-lift, KeepsFields-gets, KeepsFields-if, KeepsFields-attempt, KeepsFields-done,
  KeepsFields-act, KeepsFields-set_status, KeepsFields-set_files, KeepsFields-bind,
  KeepsFields-then, KeepsFields-modify, refl,
)
