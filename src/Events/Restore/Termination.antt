-- ===== src/Events/Restore/Termination.antt =====
-- The work that is left in the flow of src/events/backup.py.
use zookeeper_k8s_operator.Base.{
  ℕ, zero, suc, ◌+◌, ◌<◌, ◌≡◌, ◌≢◌, refl, ◌⊎◌, inl, inr, Bool, true, false, not, some, List, [],
  ◌∷◌, get_elem?, set, if◌then◌else◌, arith,
}
use zookeeper_k8s_operator.Literals.{
  RestoreStep, not_started, stop_workflow, restore, restart, clean, next_step, step_eq,
}
use zookeeper_k8s_operator.Base.{All, All-set, All-get_elem?, Bool-cases, ◌≤◌}
use zookeeper_k8s_operator.Events.Restore.Flow.{Reach-trans, here, next}
use zookeeper_k8s_operator.Events.Restore.Flow.{
  Flow, Step, act, forget, lead, begin, Reach, advance, Everyone, Permitted,
}
use zookeeper_k8s_operator.Events.Restore.Wedge.{set_same}

-- the steps that remain after a step
unfoldable pub left_after : RestoreStep → ℕ
left_after not_started = 4
left_after stop_workflow = 3
left_after restore = 2
left_after restart = 1
left_after clean = 0

unfoldable pub left_of : List RestoreStep → ℕ
unfolding left_after
left_of [] = 0
left_of (p ∷ ps) = left_after p + left_of ps

unfoldable pub work_of : Bool → RestoreStep → List RestoreStep → ℕ
unfolding left_after left_of
work_of under_way k ps = if under_way then left_after k + left_of ps + 1 else 0

-- The steps of the units and of the leader that remain in a restore.
unfoldable pub work : Flow → ℕ
unfolding work_of
work f = work_of f.under_way f.instruction f.progress

advance-cases : (k p : RestoreStep) → (advance k p ≡ p) ⊎ (left_after (advance k p) < left_after p)
unfolding advance left_after
advance-cases k p = ground arith

pub left_of-set :
    (ps : List RestoreStep) (i : ℕ) (q : RestoreStep) {p : RestoreStep}
    → get_elem? ps i ≡ some p
    → left_after q < left_after p
    → left_of (set ps i q) < left_of ps
unfolding left_of
left_of-set [] i q e h = cc
left_of-set (x ∷ ps) zero q e h = ground (arith, e, h)
left_of-set (x ∷ ps) (suc i) q e h = omega (arith, left_of-set ps i q e h)

pub lead-lt :
    (k : RestoreStep) (ps : List RestoreStep)
    → work_of (not (step_eq k clean)) (next_step k) ps < work_of true k ps
unfolding work_of left_after next_step
lead-lt not_started ps = omega arith
lead-lt stop_workflow ps = omega arith
lead-lt restore ps = omega arith
lead-lt restart ps = omega arith
lead-lt clean ps = omega arith

pub act-cases :
    (k : RestoreStep) (ps : List RestoreStep) (i : ℕ) {p : RestoreStep}
    → get_elem? ps i ≡ some p
    → (set ps i (advance k p) ≡ ps) ⊎ (work_of true k (set ps i (advance k p)) < work_of true k ps)
unfolding work_of
act-cases k ps i {p} at = elim (advance-cases k p) [
  | inl still ↦ inl (rw still (set_same ps i at))
  | inr less ↦ inr (omega (arith, left_of-set ps i (advance k p) at less))
]

-- While a restore is under way, every hook either changes nothing in the flow or leaves less work.
pub work-Step : {f g : Flow} → f.under_way ≡ true → Step f g → (g ≡ f) ⊎ (work g < work f)
unfolding work
work-Step {f} on (act i {p} _ at e) = elim (act-cases f.instruction f.progress i at) [
  | inl same ↦ inl (rw (e, same) refl)
  | inr less ↦ inr (rw (e, on) less)
]
work-Step {f} on (forget i off e) = absurd (ground (arith, on, off))
work-Step {f} on (lead _ all e) = inr (rw (e, on) (lead-lt f.instruction f.progress))
work-Step {f} on (begin off e) = absurd (ground (arith, on, off))

-- What a unit may have done, where every unit forgot the restore before this one.
abbrev pub Live : RestoreStep → RestoreStep → Type 0
Live not_started p = p ≡ not_started
Live k p = Permitted k p

Live-next : (k p : RestoreStep) → k ≢ clean → p ≡ k → Live (next_step k) p
unfolding next_step
Live-next not_started p h e = inl e
Live-next stop_workflow p h e = inl e
Live-next restore p h e = inl e
Live-next restart p h e = inl e
Live-next clean p h e = absurd (h refl)

pub Live-advance : (k p : RestoreStep) → Live k p → Live k (advance k p)
unfolding advance
Live-advance not_started p h = ground arith
Live-advance stop_workflow p h = ground arith
Live-advance restore p h = ground arith
Live-advance restart p h = ground arith
Live-advance clean p h = ground arith

-- the end of a restore
record Finished (f : Flow) : Type 0 where
  pub to : Flow
  pub reached : Reach f to
  pub over : to.under_way ≡ false
  pub cleaned : Everyone (λ p. p ≡ clean) to

done_or_behind :
    (k : RestoreStep) (ps : List RestoreStep)
    → All (λ p. p ≡ k) ps
      ⊎ ((i : ℕ) × (p : RestoreStep) × (get_elem? ps i ≡ some p) × (step_eq p k ≡ false))
done_or_behind k [] = inl tt
done_or_behind k (p ∷ ps) = elim (Bool-cases (step_eq p k)) [
  | inr behind ↦ inr (0, p, refl, behind)
  | inl done ↦ elim (done_or_behind k ps) [
    | inl rest ↦ inl (same_step p k done, rest)
    | inr (i, q, at, behind) ↦ inr (suc i, q, at, behind)
  ]
]
  where
    same_step : (p k : RestoreStep) → step_eq p k ≡ true → p ≡ k
    same_step p k h = ground (arith, h)

abbrev flow_of : RestoreStep → List RestoreStep → Flow
flow_of k ps = record { under_way = true; instruction = k; progress = ps }

Step-Finished : {f g : Flow} → Step f g → Finished g → Finished f
Step-Finished st v = record {
  to = v.to;
  reached = Reach-trans (next here st) v.reached;
  over = v.over;
  cleaned = v.cleaned;
}

pub Live-All :
    (k : RestoreStep) (ps : List RestoreStep)
    → k ≢ clean
    → All (λ p. p ≡ k) ps
    → All (Live (next_step k)) ps
Live-All k [] h all = tt
Live-All k (p ∷ ps) h all = (Live-next k p h all.0, Live-All k ps h all.1)

pub behind_advances :
    (k p : RestoreStep) → Live k p → step_eq p k ≡ false → left_after (advance k p) < left_after p
unfolding advance left_after
behind_advances not_started p h e = ground (arith, h, e)
behind_advances stop_workflow p h e = ground (arith, h, e)
behind_advances restore p h e = ground (arith, h, e)
behind_advances restart p h e = ground (arith, h, e)
behind_advances clean p h e = ground (arith, h, e)

is_clean : (k : RestoreStep) → step_eq k clean ≡ true → k ≡ clean
is_clean k h = ground (arith, h)

last_step :
    (k : RestoreStep) (ps : List RestoreStep)
    → k ≡ clean
    → All (λ p. p ≡ k) ps
    → Finished (flow_of k ps)
last_step k ps e all = record {
  to = record { under_way = false; instruction = next_step k; progress = ps };
  reached = next here (lead refl all (rw e refl));
  over = refl;
  cleaned = rw e at all;
}

-- The fuel is the work that is left.
finishes :
    (n : ℕ) (k : RestoreStep) (ps : List RestoreStep)
    → work_of true k ps ≤ n
    → All (Live k) ps
    → Finished (flow_of k ps)
unfolding work_of
finishes zero k ps few live = absurd (omega arith)
finishes (suc n) k ps few live = elim (done_or_behind k ps) [
  | inl all ↦ elim (Bool-cases (step_eq k clean)) [
    | inl last ↦ last_step k ps (is_clean k last) all
    | inr more ↦ Step-Finished (lead {g = flow_of (next_step k) ps} refl all (rw more refl)) (
        finishes n (next_step k) ps (omega (arith, (rw more at (lead-lt k ps))))
          (Live-All k ps (λ e. not_last k e more) all))
  ]
  | inr (i, p, at, behind) ↦
      let now = All-get_elem? (Live k) ps i live at in
      Step-Finished (act i refl at refl) (
        finishes n k (set ps i (advance k p))
          (omega (arith, left_of-set ps i (advance k p) at (behind_advances k p now behind)))
          (All-set (Live k) ps i (advance k p) live (Live-advance k p now)))
]
  where
    not_last : (k : RestoreStep) → k ≡ clean → step_eq k clean ≡ false → ⊥
    not_last k e h = ground (arith, e, h)

-- A restore that begins after every unit forgot the one before it can always be finished: from
-- whatever point it is at, the hooks can bring it to its end, with every unit cleaned up.
restore_finishes : (f : Flow) → f.under_way ≡ true → Everyone (Live f.instruction) f → Finished f
restore_finishes f on live =
    subst_flow f on
      (finishes (work_of true f.instruction f.progress) f.instruction f.progress (omega arith) live)
  where
    subst_flow :
        (f : Flow) → f.under_way ≡ true → Finished (flow_of f.instruction f.progress) → Finished f
    subst_flow f on v = rw on v
