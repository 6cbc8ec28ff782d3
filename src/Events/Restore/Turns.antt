-- ===== src/Events/Restore/Turns.antt =====
-- One hook of one unit in the flow of a restore, and the work that it leaves: src/events/backup.py.
use zookeeper_k8s_operator.Base.{
  ℕ, ◌<◌, ◌≡◌, ◌≢◌, refl, ap, ◌⊎◌, inl, inr, Bool, true, false, some, List, All, All-set,
  All-get_elem?, get_elem?, set, Bool-cases, arith,
}
use zookeeper_k8s_operator.Literals.{RestoreStep, clean, next_step, step_eq}
use zookeeper_k8s_operator.Events.Restore.Flow.{Flow, Everyone, advance}
use zookeeper_k8s_operator.Events.Restore.Local.{Local, local_step}
use zookeeper_k8s_operator.Events.Restore.Termination.{
  work, work_of, Live, Live-All, Live-advance, lead-lt, act-cases, left_of-set, behind_advances,
}
use zookeeper_k8s_operator.Events.Restore.Wedge.{set_same}

abbrev pub flow_of : Bool → RestoreStep → List RestoreStep → Flow
flow_of u k ps = record { under_way = u; instruction = k; progress = ps }

abbrev pub local_of : Bool → RestoreStep → RestoreStep → Local
local_of u k p = record { under_way = u; instruction = k; progress = p }

-- what one hook makes of the flow
unfoldable pub local_flow : ℕ → Local → Flow → Flow
local_flow i l f = flow_of l.under_way l.instruction (set f.progress i l.progress)

-- While a restore is under way, no unit still has the progress of the restore before it.
abbrev pub IsLive : Flow → Type 0
IsLive f = f.under_way ≡ true → Everyone (Live f.instruction) f

-- What a turn of a unit leaves: no restore, or less work, or all as it was, and then the unit has
-- done its part, and did not lead.
abbrev pub After : (leads : Bool) (p : RestoreStep) → Flow → Flow → Type 0
After leads p f g =
    (g.under_way ≡ false) ⊎ ((work g < work f) ⊎ ((g ≡ f) × (p ≡ f.instruction) × (leads ≡ false)))

same_step : (p k : RestoreStep) → step_eq p k ≡ true → p ≡ k
same_step p k h = ground (arith, h)

advance-same : (k : RestoreStep) → advance k k ≡ k
unfolding advance
advance-same k = ground arith

follow-After :
    (k : RestoreStep) (ps : List RestoreStep) (i : ℕ) {p : RestoreStep}
    → get_elem? ps i ≡ some p
    → All (Live k) ps
    → After false p (flow_of true k ps) (flow_of true k (set ps i (advance k p)))
unfolding work work_of
follow-After k ps i {p} at live = elim (Bool-cases (step_eq p k)) [
  | inl done ↦
      let e = same_step p k done in
      inr (inr (ap (flow_of true k) (rw (still k p e) (set_same ps i at)), e, refl))
  | inr behind ↦
      let now = All-get_elem? (Live k) ps i live at in
      inr (inl (omega (arith, left_of-set ps i (advance k p) at (behind_advances k p now behind))))
]
  where
    still : (k p : RestoreStep) → p ≡ k → advance k p ≡ p
    still k p e = rw e (advance-same k)

lead_on :
    (k : RestoreStep) (ps : List RestoreStep) (i : ℕ) {p : RestoreStep}
    → step_eq k clean ≡ false
    → get_elem? ps i ≡ some p
    → work (flow_of true (next_step k) (set ps i (advance (next_step k) p)))
      < work (flow_of true k ps)
unfolding work
lead_on k ps i {p} more at = elim (act-cases (next_step k) ps i at) [
  | inl same ↦ rw same (rw more at (lead-lt k ps))
  | inr less ↦ omega (arith, less, (rw more at (lead-lt k ps)))
]

not_clean : (k : RestoreStep) → step_eq k clean ≡ false → k ≢ clean
not_clean k h e = ground (arith, e, h)

-- what a turn of the unit `i` makes of the flow
abbrev pub turn_of : Bool → ℕ → RestoreStep → Flow → Flow
turn_of leads i p f = local_flow i (local_step leads (local_of f.under_way f.instruction p)) f

-- A turn of the unit `i`, which leads only where all units have done the instruction.
pub turn_of-After :
    (leads under_way : Bool) (k : RestoreStep) (ps : List RestoreStep) (i : ℕ) {p : RestoreStep}
    → get_elem? ps i ≡ some p
    → (leads ≡ true → All (λ q. q ≡ k) ps)
    → IsLive (flow_of under_way k ps)
    → IsLive (turn_of leads i p (flow_of under_way k ps))
      × After leads p (flow_of under_way k ps) (turn_of leads i p (flow_of under_way k ps))
unfolding local_flow local_step
turn_of-After leads false k ps i at everyone live = (λ on. cc, inl refl)
turn_of-After false true k ps i {p} at everyone live = (
  λ on.
      All-set (Live k) ps i (advance k p) (live refl)
        (Live-advance k p (All-get_elem? (Live k) ps i (live refl) at)),
  follow-After k ps i at (live refl),
)
turn_of-After true true k ps i {p} at everyone live = elim (Bool-cases (step_eq k clean)) [
  | inl last ↦ rw last (λ on. cc, inl refl)
  | inr more ↦
      let moved = Live-All k ps (not_clean k more) (everyone refl) in
      rw more (
        λ on.
            All-set (Live (next_step k)) ps i (advance (next_step k) p) moved
              (Live-advance (next_step k) p (All-get_elem? (Live (next_step k)) ps i moved at)),
        inr (inl (lead_on k ps i more at)),
      )
]
