-- ===== src/Events/Restore/Wedge.antt =====
-- A restore that begins before every unit has forgotten the one before it.
use zookeeper_k8s_operator.Base.{
  ℕ, zero, suc, ◌≡◌, refl, ap, true, false, some, List, [], ◌∷◌, All-get_elem?, get_elem?, set,
  arith,
}
use zookeeper_k8s_operator.Literals.{RestoreStep, not_started, clean}
use zookeeper_k8s_operator.Events.Restore.Flow.{
  Flow, Step, act, forget, lead, begin, Reach, here, next, advance,
}

record IsWedged (i : ℕ) (f : Flow) : Type 0 where
  on : f.under_way ≡ true
  waiting : f.instruction ≡ not_started
  behind : get_elem? f.progress i ≡ some clean

pub set_same :
    (xs : List RestoreStep) (i : ℕ) {p : RestoreStep} → get_elem? xs i ≡ some p → set xs i p ≡ xs
set_same [] i e = refl
set_same (x ∷ xs) zero e = ground arith
set_same (x ∷ xs) (suc i) e = ap (◌∷◌ x) (set_same xs i e)

pub advance-not_started : (p : RestoreStep) → advance not_started p ≡ p
unfolding advance
advance-not_started p = ground arith

Step-IsWedged : (i : ℕ) {f g : Flow} → Step f g → IsWedged i f → IsWedged i g
Step-IsWedged i {f} (act j {p} on at e) w = rw e (record {
  on = w.on;
  waiting = w.waiting;
  behind = rw (w.waiting, advance-not_started p, set_same f.progress j at) w.behind;
})
Step-IsWedged i (forget j off e) w = cc (w.on)
Step-IsWedged i {f} (lead on all e) w =
    let same = All-get_elem? (λ p. p ≡ f.instruction) f.progress i all w.behind in
    cc (w.waiting, same)
Step-IsWedged i (begin off e) w = cc (w.on)

Reach-IsWedged : (i : ℕ) {f g : Flow} → Reach f g → IsWedged i f → IsWedged i g
Reach-IsWedged i here w = w
Reach-IsWedged i (next r s) w = Step-IsWedged i s (Reach-IsWedged i r w)

-- If a restore begins while a unit still has the progress of a finished one, then whatever hooks
-- run, the restore stays under way at its first instruction, and that unit stays where it is.
pub begin_early_wedges :
    (i : ℕ) (f : Flow) {g h : Flow}
    → f.under_way ≡ false
    → get_elem? f.progress i ≡ some clean
    → g ≡ record f { instruction = not_started; under_way = true }
    → Reach g h
    → (h.under_way ≡ true) × (h.instruction ≡ not_started) × (get_elem? h.progress i ≡ some clean)
begin_early_wedges i f {g} {h} off behind e r = (end.on, end.waiting, end.behind)
  where
    start : IsWedged i g
    start = rw e (record { on = refl; waiting = refl; behind = behind })

    end : IsWedged i h
    end = Reach-IsWedged i r start
