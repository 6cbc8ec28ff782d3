-- ===== src/Base/Raising.antt =====
-- The result of Python code that may raise an exception which matters to the program.
use mathlib.Core.Path.{◌≡◌, refl}
use mathlib.Core.Logic.{◌⊎◌, inl, inr}

pub data Error : Type 0 where
  value_error key_error : Error
  quorum_leader_not_found members_syncing member_not_ready kazoo_timeout : Error
  bad_arguments connection_closed exec_error api_error retry_error : Error
  cluster_not_ready kubernetes_client_error unbound_local change_error model_error decode_error
        other_error :
      Error

pub data Outcome {ℓ} (A : Type ℓ) : Type ℓ where
  ok : A → Outcome A
  raised : Error → Outcome A

infixl 5 ◌>>=◌
abbrev pub ◌>>=◌ {ℓ κ} : {A : Type ℓ} {B : Type κ} → Outcome A → (A → Outcome B) → Outcome B
ok a >>= f = f a
raised e >>= f = raised e

-- a chain that returns: each part did
pub >>=-returns :
    {A B : Type 0} (m : Outcome A) (f : A → Outcome B) {b : B}
    → (m >>= f) ≡ ok b
    → (a : A) × (m ≡ ok a) × (f a ≡ ok b)
>>=-returns (ok a) f h = (a, refl, h)
>>=-returns (raised e) f h = cc

pub Outcome-cases :
    {A : Type 0} (r : Outcome A) → ((a : A) × (r ≡ ok a)) ⊎ ((e : Error) × (r ≡ raised e))
Outcome-cases (ok a) = inl (a, refl)
Outcome-cases (raised e) = inr (e, refl)
