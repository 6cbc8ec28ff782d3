-- ===== src/Charm/Monad/Adds.antt =====
-- What a part of a handler adds to the trace of effects, where it returns.
use mathlib.Core.List.Memᴰ as Mem
use zookeeper_k8s_operator.Base.{◌≡◌, refl, ◌↔◌, ◌⊎◌, inl, inr, [], ◌∷◌, Mem, Outcome, ok, raised}
use zookeeper_k8s_operator.Charm.{Charm, Effect}
use zookeeper_k8s_operator.Charm.Monad.{M, ◌>>=◌, ◌>>◌, done, act, lift}
use zookeeper_k8s_operator.Charm.Monad.Keeps.{ok-then}

-- The effect is in the trace after the part exactly if it was there before, or P holds.
pub record Adds (e : Effect) (P : Type 0) (m : M (Unit {0})) : Type 0 where
  pub at : (c : Charm) → (m c).0 ≡ ok tt → Mem e (m c).1.effects ↔ (Mem e c.effects ⊎ P)

module _ {e : Effect} where
  pub Adds-iff : {P Q : Type 0} {m : M (Unit {0})} → P ↔ Q → Adds e P m → Adds e Q m
  Adds-iff {P} {Q} iff k = record {
    at = λ c returned. (
      λ h. elim ((k.at c returned).0 h) [ inl old ↦ inl old | inr p ↦ inr (iff.0 p) ],
      λ h. elim h [
        | inl old ↦ (k.at c returned).1 (inl old)
        | inr q ↦ (k.at c returned).1 (inr (iff.1 q))
      ],
    );
  }

  pub Adds-done : Adds e ⊥ done
  Adds-done = record {
    at = λ c returned. (λ h. inl h, λ h. elim h [ inl old ↦ old | inr p ↦ absurd p ]);
  }

  pub Adds-act : (f : Effect) → Adds e (e ≡ f) (act f)
  Adds-act f = record {
    at = λ c returned. (
      λ h. elim (Mem.append_cases c.effects h) [
        | inl old ↦ inl old
        | inr new ↦ inr (Mem.eq_of_singleton new)
      ],
      λ h. elim h [
        | inl old ↦ Mem.append_left (f ∷ []) old
        | inr same ↦ Mem.append_right c.effects (Mem.head same)
      ],
    );
  }

  pub Adds-then :
      {P Q : Type 0} {m n : M (Unit {0})} → Adds e P m → Adds e Q n → Adds e (P ⊎ Q) (m >> n)
  Adds-then {P} {Q} {m} {n} km kn = record {
    at = λ c returned.
        let parts = ok-then m n c returned in
        let first = km.at c parts.0 in
        let second = kn.at (m c).1 (rw parts.1 at returned) in
        rw parts.1 (
          λ h. elim (second.0 h) [
            | inl mid ↦ elim (first.0 mid) [ inl old ↦ inl old | inr p ↦ inr (inl p) ]
            | inr q ↦ inr (inr q)
          ],
          λ h. elim h [
            | inl old ↦ second.1 (inl (first.1 (inl old)))
            | inr (inl p) ↦ second.1 (inl (first.1 (inr p)))
            | inr (inr q) ↦ second.1 (inr q)
          ],
        );
  }

  -- an answer from outside, or an exception
  pub Adds-lift_bind :
      {A : Type 0} {P : Type 0} (r : Outcome A) (f : A → M (Unit {0}))
      → ((a : A) → r ≡ ok a → Adds e P (f a))
      → Adds e P (lift r >>= f)
  Adds-lift_bind (ok a) f k = record { at = λ c returned. (k a refl).at c returned }
  Adds-lift_bind (raised x) f k = record { at = λ c returned. absurd (clash refl returned) }
    where
      clash : {y : Outcome (Unit {0})} → y ≡ raised x → y ≡ ok tt → ⊥
      clash e h = cc
