-- ===== src/Charm/Monad/Restoring.antt =====
-- Parts of a handler that leave the fields of a restore as they were.
use zookeeper_k8s_operator.Base.{
  ℕ, String, ◌≡◌, refl, Bool, true, false, ◌||◌, [], ◌∷◌, str_eq, eq_iff, arith, Bool-cases, inl,
  inr,
}
use zookeeper_k8s_operator.Text.{str, isdigit, isdigit-str}
use zookeeper_k8s_operator.Charm.Monad.{M}
use zookeeper_k8s_operator.Models.App.Apart.{is_apart}
pub use zookeeper_k8s_operator.Charm.Monad.Fields.{
  KeepsFields, SameFields-same, KeepsFields-of, KeepsFields-lift, KeepsFields-gets, KeepsFields-if,
  KeepsFields-attempt, KeepsFields-done, KeepsFields-act, KeepsFields-bind, KeepsFields-lift_bind,
  KeepsFields-then, KeepsFields-update_app, KeepsFields-update_unit, fields_rules,
}

-- a field that the restore flow reads
abbrev pub is_restore_key : String → Bool
is_restore_key key =
    str_eq key "id-to-restore"
    || (str_eq key "restore-instruction" || str_eq key "restore-progress")

abbrev pub KeepsRestore : {A : Type 0} → M A → Type 0
KeepsRestore m = KeepsFields is_restore_key m

other_key :
    (p : String → Bool) (key field : String)
    → p key ≡ true
    → p field ≡ false
    → str_eq key field ≡ false
other_key p key field h k = elim (Bool-cases (str_eq key field)) [
  | inr other ↦ other
  | inl same ↦ absurd (clash ((eq_iff key field).0 same) h k)
]
  where
    clash : {a b : String} → a ≡ b → p a ≡ true → p b ≡ false → ⊥
    clash e h k = cc

-- A test tells the key from the fields of a restore.
pub is_apart-by :
    (p : String → Bool) (key v : String)
    → p key ≡ true
    → p "id-to-restore" ≡ false
    → p "restore-instruction" ≡ false
    → p "restore-progress" ≡ false
    → is_apart is_restore_key ((key, v) ∷ []) ≡ true
is_apart-by p key v h wanted told over = ground (
  arith,
  other_key p key "id-to-restore" h wanted,
  other_key p key "restore-instruction" h told,
  other_key p key "restore-progress" h over,
)

-- a number's key is no such field
pub is_apart-str : (n : ℕ) (v : String) → is_apart is_restore_key ((str n, v) ∷ []) ≡ true
unfolding isdigit
is_apart-str n v = is_apart-by isdigit (str n) v (isdigit-str n) refl refl refl
