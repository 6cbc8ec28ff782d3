-- ===== src/Workload/Admin/Checks.antt =====
-- What five health checks come to: `healthy` of src/workload.py.
use zookeeper_k8s_operator.Base.{
  ℕ, zero, suc, ◌+◌, ◌≤◌, ◌<◌, ◌≡◌, ◌∙◌, ◌⊎◌, refl, ap, Bool, true, false, ok, raised, Error,
  Outcome, Outcome-cases, Bool-cases, inl, inr, ◌==◌, ==_iff, arith,
}
use zookeeper_k8s_operator.Workload.Admin.{Probe, healthy_once, healthy_from, healthy}

-- The attempts from `low` on, below `high`, find that the service is not healthy.
abbrev Down : (ℕ → Probe) → ℕ → ℕ → Type 0
Down probe low high = (j : ℕ) → low ≤ j → j < high → healthy_once (probe j) ≡ ok false

-- the attempt finds the service healthy, or raises
abbrev pub IsDecided : Outcome Bool → Type 0
IsDecided r = (r ≡ ok true) ⊎ ((e : Error) × (r ≡ raised e))

abbrev EndsWithin : (ℕ → Probe) → ℕ → ℕ → Outcome Bool → Type 0
EndsWithin probe low high r =
    ((k : ℕ) × (low ≤ k)
      × (k < high)
      × Down probe low k
      × IsDecided (healthy_once (probe k))
      × (r ≡ healthy_once (probe k)))
    ⊎ (Down probe low high × (r ≡ ok false))

Down-first :
    (probe : ℕ → Probe) (n k : ℕ)
    → healthy_once (probe n) ≡ ok false
    → Down probe (suc n) k
    → Down probe n k
Down-first probe n k first later j low high = elim (Bool-cases (j == n)) [
  | inl same ↦ ap (λ (m : ℕ). healthy_once (probe m)) ((==_iff j n).0 same) ∙ first
  | inr other ↦ later j (ground (arith, other, low)) high
]

after_first :
    (probe : ℕ → Probe) (n high : ℕ) (r : Outcome Bool)
    → healthy_once (probe n) ≡ ok false
    → EndsWithin probe (suc n) high r
    → EndsWithin probe n high r
after_first probe n high r first (inl (k, low, below, down, decided, ends)) =
    inl (k, omega (arith, low), below, Down-first probe n k first down, decided, ends)
after_first probe n high r first (inr (down, ends)) = inr (Down-first probe n high first down, ends)

healthy_from-cases :
    (probe : ℕ → Probe) (tries n high : ℕ)
    → high ≡ n + tries
    → EndsWithin probe n high (healthy_from tries n probe)
unfolding healthy_from
healthy_from-cases probe zero n high e = inr (λ j low h. absurd (omega (arith, low, h, e)), refl)
healthy_from-cases probe (suc tries) n high e =
    let later = healthy_from-cases probe tries (suc n) high (omega (arith, e)) in
    elim (Outcome-cases (healthy_once (probe n))) [
      | inr (x, broken) ↦
          inl (n, omega arith, omega (arith, e), none_before n, inr (x, broken), stops x broken)
      | inl (true, up) ↦ inl (n, omega arith, omega (arith, e), none_before n, inl up, passes up)
      | inl (false, down) ↦ after_first probe n high _ down (rw (again down) later)
    ]
  where
    stops :
        (x : Error)
        → healthy_once (probe n) ≡ raised x
        → healthy_from (suc tries) n probe ≡ healthy_once (probe n)
    stops x broken = rw broken refl

    passes :
        healthy_once (probe n) ≡ ok true → healthy_from (suc tries) n probe ≡ healthy_once (probe n)
    passes up = rw up refl

    again :
        healthy_once (probe n) ≡ ok false
        → healthy_from (suc tries) n probe ≡ healthy_from tries (suc n) probe
    again down = rw down refl

    none_before : (n : ℕ) → Down probe n n
    none_before n j low high = absurd (omega (arith, low, high))

-- Either the first of five attempts that does not find the service unhealthy gives the result, which is that
-- it is healthy or the exception that was raised, or all five find it unhealthy, and so does the result.
pub healthy-cases :
    (probe : ℕ → Probe)
    → ((k : ℕ) × (k < 5)
        × ((j : ℕ) → j < k → healthy_once (probe j) ≡ ok false)
        × IsDecided (healthy_once (probe k))
        × (healthy probe ≡ healthy_once (probe k)))
      ⊎ (((j : ℕ) → j < 5 → healthy_once (probe j) ≡ ok false) × (healthy probe ≡ ok false))
unfolding healthy
healthy-cases probe = elim (healthy_from-cases probe 5 0 5 refl) [
  | inl (k, low, below, down, decided, ends) ↦
      inl (k, below, λ j h. down j (omega arith) h, decided, ends)
  | inr (down, ends) ↦ inr (λ j h. down j (omega arith) h, ends)
]
