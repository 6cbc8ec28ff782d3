-- ===== src/Events/Restore/Retry.antt =====
-- The last step of the restore flow retries its health check: `_cleaning` of src/events/backup.py.
use zookeeper_k8s_operator.Base.{
  ℕ, zero, suc, ◌+◌, ◌≤◌, ◌<◌, ◌≡◌, ◌∙◌, ◌⊎◌, refl, true, false, ok, raised, Error, retry_error,
  arith, Outcome, Outcome-cases, Bool-cases, inl, inr, ◌==◌, ==_iff, ap,
}
use zookeeper_k8s_operator.Charm.{Charm, Observed}
use zookeeper_k8s_operator.Events.Restore.{clean_up, cleaning, cleaning_from}

-- The checks from `low` on, below `high`, find that the service is not healthy.
abbrev Down : Observed → ℕ → ℕ → Type 0
Down o low high = (j : ℕ) → low ≤ j → j < high → o.healthy_at j ≡ ok false

-- What the step comes to at the check `k`: it cleans up, or raises what the check raises.
abbrev pub Ends : Observed → Charm → Outcome (Unit {0}) × Charm → ℕ → Type 0
Ends o c r k =
    ((o.healthy_at k ≡ ok true) × (r ≡ clean_up o c))
    ⊎ ((e : Error) × (o.healthy_at k ≡ raised e) × (r ≡ (raised e, c)))

abbrev EndsWithin : Observed → Charm → ℕ → ℕ → Outcome (Unit {0}) × Charm → Type 0
EndsWithin o c low high r =
    ((k : ℕ) × (low ≤ k) × (k < high) × Down o low k × Ends o c r k)
    ⊎ (Down o low high × (r ≡ (raised retry_error, c)))

Down-first : (o : Observed) (n k : ℕ) → o.healthy_at n ≡ ok false → Down o (suc n) k → Down o n k
Down-first o n k first later j low high = elim (Bool-cases (j == n)) [
  | inl same ↦ ap o.healthy_at ((==_iff j n).0 same) ∙ first
  | inr other ↦ later j (ground (arith, other, low)) high
]

-- one more check before the others
after_first :
    (o : Observed) (c : Charm) (n high : ℕ) (r : Outcome (Unit {0}) × Charm)
    → o.healthy_at n ≡ ok false
    → EndsWithin o c (suc n) high r
    → EndsWithin o c n high r
after_first o c n high r first (inl (k, low, below, down, ends)) =
    inl (k, omega (arith, low), below, Down-first o n k first down, ends)
after_first o c n high r first (inr (down, ends)) = inr (Down-first o n high first down, ends)

cleaning_from-cases :
    (o : Observed) (c : Charm) (tries n high : ℕ)
    → high ≡ n + tries
    → EndsWithin o c n high (cleaning_from o tries n c)
unfolding cleaning_from
cleaning_from-cases o c zero n high e = inr (λ j low h. absurd (omega (arith, low, h, e)), refl)
cleaning_from-cases o c (suc tries) n high e =
    let later = cleaning_from-cases o c tries (suc n) high (omega (arith, e)) in
    elim (Outcome-cases (o.healthy_at n)) [
      | inr (x, broken) ↦
          inl (n, omega arith, omega (arith, e), none_before n, inr (x, broken, rw broken refl))
      | inl (true, up) ↦ inl (n, omega arith, omega (arith, e), none_before n, inl (up, rw up refl))
      | inl (false, down) ↦ after_first o c n high _ down (rw (again c down) later)
    ]
  where
    again :
        (d : Charm)
        → o.healthy_at n ≡ ok false
        → cleaning_from o (suc tries) n d ≡ cleaning_from o tries (suc n) d
    again d down = rw down refl

    none_before : (n : ℕ) → Down o n n
    none_before n j low high = absurd (omega (arith, low, high))

-- The step is decided by the first of three health checks that does not find the service unhealthy: it
-- cleans up if that check finds it healthy, and raises what that check raises, having changed nothing.
-- If all three find it unhealthy, the step raises a RetryError, and has changed nothing.
pub cleaning_lem :
    (o : Observed) (c : Charm)
    → ((k : ℕ) × (k < 3)
        × ((j : ℕ) → j < k → o.healthy_at j ≡ ok false)
        × Ends o c (cleaning o c) k)
      ⊎ (((j : ℕ) → j < 3 → o.healthy_at j ≡ ok false) × (cleaning o c ≡ (raised retry_error, c)))
unfolding cleaning
cleaning_lem o c = elim (cleaning_from-cases o c 3 0 3 refl) [
  | inl (k, low, below, down, ends) ↦ inl (k, below, λ j h. down j (omega arith) h, ends)
  | inr (down, ends) ↦ inr (λ j h. down j (omega arith) h, ends)
]
