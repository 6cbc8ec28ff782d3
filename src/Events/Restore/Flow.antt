-- ===== src/Events/Restore/Flow.antt =====
-- The restore flow of the whole application: the units of src/events/backup.py, whose hooks run one
-- at a time in any order, as a step relation. `Refine` has the handler beside it.
use zookeeper_k8s_operator.Base.{
  ℕ, ◌≡◌, refl, ◌⊎◌, inl, inr, Bool, true, false, some, List, [], ◌∷◌, All, All-set, All-get_elem?,
  get_elem?, set, not, arith,
}
use zookeeper_k8s_operator.Literals.{
  RestoreStep, not_started, stop_workflow, restore, restart, clean, next_step, step_eq,
}

-- What a unit's progress becomes when it handles an instruction.
unfoldable pub advance : RestoreStep → RestoreStep → RestoreStep
advance stop_workflow not_started = stop_workflow
advance restore stop_workflow = restore
advance restart restore = restart
advance clean restart = clean
advance _ p = p

pub record Flow : Type 0 where
  pub under_way : Bool
  pub instruction : RestoreStep
  pub progress : List RestoreStep  -- of each unit

abbrev pub Everyone : (RestoreStep → Type 0) → Flow → Type 0
Everyone P f = All P f.progress

-- The hooks: a unit acts on the instruction, a unit forgets a past restore, the leader moves to the
-- next instruction, and the action begins a restore.
pub data Step (f : Flow) : Flow → Type 0 where
  act :
      (i : ℕ) {p : RestoreStep} {g : Flow}
      → f.under_way ≡ true
      → get_elem? f.progress i ≡ some p
      → g ≡ record f { progress = set f.progress i (advance f.instruction p) }
      → Step f g
  forget :
      (i : ℕ) {g : Flow}
      → f.under_way ≡ false
      → g ≡ record f { progress = set f.progress i not_started }
      → Step f g
  lead :
      {g : Flow}
      → f.under_way ≡ true
      → Everyone (λ p. p ≡ f.instruction) f
      → g ≡ record f {
        instruction = next_step f.instruction;
        under_way = not (step_eq f.instruction clean);
      }
      → Step f g
  begin :
      {g : Flow}
      → f.under_way ≡ false
      → g ≡ record f { instruction = not_started; under_way = true }
      → Step f g

pub data Reach (f : Flow) : Flow → Type 0 where
  here : Reach f f
  next : {g h : Flow} → Reach f g → Step g h → Reach f h

pub Reach-trans : {f g h : Flow} → Reach f g → Reach g h → Reach f h
Reach-trans r here = r
Reach-trans r (next q st) = next (Reach-trans r q) st

-- a unit that has done the instruction, or the one before it
abbrev pub InStep : RestoreStep → RestoreStep → Type 0
InStep i p = (p ≡ i) ⊎ (next_step p ≡ i)

pub record Inv (f : Flow) : Type 0 where
  pub at_rest : f.under_way ≡ false → f.instruction ≡ not_started
  pub in_step : Everyone (InStep f.instruction) f

advance-InStep : (i p : RestoreStep) → InStep i p → InStep i (advance i p)
unfolding advance next_step
advance-InStep i p h = ground arith

next-InStep :
    (i : RestoreStep) (ps : List RestoreStep) → All (λ p. p ≡ i) ps → All (InStep (next_step i)) ps
next-InStep i [] h = tt
next-InStep i (p ∷ ps) h = (inr (rw h.0), next-InStep i ps h.1)

lead-at_rest : (i : RestoreStep) → not (step_eq i clean) ≡ false → next_step i ≡ not_started
unfolding next_step
lead-at_rest i h = ground arith

-- Every hook keeps the units in step with the instruction.
pub Step-Inv : {f g : Flow} → Step f g → Inv f → Inv g
Step-Inv {f} (act i {p} on at e) v = rw e (record {
  at_rest = v.at_rest;
  in_step = All-set (InStep f.instruction) f.progress i (advance f.instruction p) v.in_step (
      advance-InStep f.instruction p
        (All-get_elem? (InStep f.instruction) f.progress i v.in_step at));
})
Step-Inv {f} (forget i off e) v = rw e (record {
  at_rest = v.at_rest;
  in_step =
      All-set (InStep f.instruction) f.progress i not_started v.in_step (inl (rw (v.at_rest off)));
})
Step-Inv {f} (lead on all e) v = rw e (record {
  at_rest = lead-at_rest f.instruction;
  in_step = next-InStep f.instruction f.progress all;
})
Step-Inv {f} (begin off e) v =
    rw e (record { at_rest = λ _. refl; in_step = rw (v.at_rest off) at v.in_step })

pub Reach-Inv : {f g : Flow} → Inv f → Reach f g → Inv g
Reach-Inv v here = v
Reach-Inv v (next r s) = Step-Inv s (Reach-Inv v r)

abbrev pub OneOf : RestoreStep → RestoreStep → RestoreStep → Type 0
OneOf a b p = (p ≡ a) ⊎ (p ≡ b)

-- What a unit may have done last while an instruction is given.
abbrev pub Permitted : RestoreStep → RestoreStep → Type 0
Permitted not_started p = OneOf clean not_started p
Permitted stop_workflow p = OneOf not_started stop_workflow p
Permitted restore p = OneOf stop_workflow restore p
Permitted restart p = OneOf restore restart p
Permitted clean p = OneOf restart clean p

InStep-Permitted : (i p : RestoreStep) → InStep i p → Permitted i p
unfolding next_step
InStep-Permitted not_started p h = ground arith
InStep-Permitted stop_workflow p h = ground arith
InStep-Permitted restore p h = ground arith
InStep-Permitted restart p h = ground arith
InStep-Permitted clean p h = ground arith

everyone-Permitted :
    (i : RestoreStep) (ps : List RestoreStep) → All (InStep i) ps → All (Permitted i) ps
everyone-Permitted i [] h = tt
everyone-Permitted i (p ∷ ps) h = (InStep-Permitted i p h.0, everyone-Permitted i ps h.1)

-- From a state in step, whatever hooks run: while the snapshot is restored, every unit has stopped
-- and none has restarted; while the units restart, every unit has restored the snapshot; and while
-- an instruction is given, every unit has done it or the one before it.
pub restore_safe : {f g : Flow} → Inv f → Reach f g → Everyone (Permitted g.instruction) g
restore_safe {f} {g} v r = everyone-Permitted g.instruction g.progress (Reach-Inv v r).in_step
