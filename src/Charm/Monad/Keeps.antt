-- ===== src/Charm/Monad/Keeps.antt =====
-- Parts of a handler that leave the unit's view of the databags as it was.
use zookeeper_k8s_operator.Base.{
  ◌≡◌, refl, ◌∙◌, Bool, true, false, Outcome, ok, raised, if◌then◌else◌,
}
use zookeeper_k8s_operator.Literals.{Status}
use zookeeper_k8s_operator.Charm.{Charm, Effect}
use zookeeper_k8s_operator.Charm.Monad.{M, ◌>>=◌, ◌>>◌, done, gets, act, lift, set_status}

-- whether the part returns or raises
pub record KeepsState {A : Type 0} (m : M A) : Type 0 where
  pub at : (c : Charm) → (m c).1.state ≡ c.state

module _ {A : Type 0} where
  pub KeepsState-lift : (r : Outcome A) → KeepsState (lift r)
  KeepsState-lift r = record { at = λ c. refl }

  pub KeepsState-gets : (f : Charm → A) → KeepsState (gets f)
  KeepsState-gets f = record { at = λ c. refl }

  pub KeepsState-if :
      (b : Bool) (m n : M A) → KeepsState m → KeepsState n → KeepsState (if b then m else n)
  KeepsState-if true m n km kn = km
  KeepsState-if false m n km kn = kn

pub KeepsState-done : KeepsState done
KeepsState-done = record { at = λ c. refl }

pub KeepsState-act : (e : Effect) → KeepsState (act e)
KeepsState-act e = record { at = λ c. refl }

pub KeepsState-set_status : (s : Status) → KeepsState (set_status s)
unfolding set_status
KeepsState-set_status s = record { at = λ c. refl }

module _ {A B : Type 0} where
  after_result :
      (f : A → M B)
      → ((a : A) → KeepsState (f a))
      → (r : Outcome A) (c : Charm) → ((lift r >>= f) c).1.state ≡ c.state
  after_result f kf (ok a) c = (kf a).at c
  after_result f kf (raised e) c = refl

  pub KeepsState-bind :
      (m : M A) (f : A → M B) → KeepsState m → ((a : A) → KeepsState (f a)) → KeepsState (m >>= f)
  KeepsState-bind m f km kf = record { at = λ c. after_result f kf (m c).0 (m c).1 ∙ km.at c }

pub KeepsState-then :
    {B : Type 0} (m : M (Unit {0})) (k : M B) → KeepsState m → KeepsState k → KeepsState (m >> k)
KeepsState-then m k km kk = KeepsState-bind m (λ _. k) km (λ _. kk)

pub ruleset keeps_rules = (
  KeepsState-lift, KeepsState-gets, KeepsState-if, KeepsState-done, KeepsState-act,
  KeepsState-set_status, KeepsState-bind, KeepsState-then,
)

after_ok :
    {B : Type 0} (r : Outcome (Unit {0})) (d : Charm) (k : M B) {b : B}
    → ((lift r >> k) d).0 ≡ ok b
    → (r ≡ ok tt) × ((lift r >> k) d ≡ k d)
after_ok (ok tt) d k h = (refl, refl)
after_ok (raised e) d k h = cc

-- A chain that returns: the first part returned, and then the second one ran.
pub ok-then :
    {B : Type 0} (m : M (Unit {0})) (k : M B) (c : Charm) {b : B}
    → ((m >> k) c).0 ≡ ok b
    → ((m c).0 ≡ ok tt) × ((m >> k) c ≡ k (m c).1)
ok-then m k c h = after_ok (m c).0 (m c).1 k h
