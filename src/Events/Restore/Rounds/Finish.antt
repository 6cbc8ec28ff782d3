-- ===== src/Events/Restore/Rounds/Finish.antt =====
-- How long a restore takes, in rounds of hooks: src/charm.py and src/events/backup.py.
use zookeeper_k8s_operator.Base.{
  ℕ, zero, suc, ◌+◌, ◌*◌, ◌<◌, ◌≤◌, ◌≡◌, refl, sym, ap, ◌∙◌, ◌⊎◌, inl, inr, Bool, true, false, ◌||◌,
  ◌==◌, ==_iff, Bool-cases, some, List, [], ◌∷◌, any, get_elem?, set, length, length-map, arith,
}
use zookeeper_k8s_operator.Literals.{RestoreStep}
use zookeeper_k8s_operator.Events.Restore.Flow.{Flow, Everyone}
use zookeeper_k8s_operator.Events.Restore.Local.{local_step}
use zookeeper_k8s_operator.Events.Restore.Termination.{work, work_of, left_after, left_of}
use zookeeper_k8s_operator.Events.Restore.Turns.{
  IsLive, After, local_flow, flow_of, turn_of, turn_of-After,
}
use zookeeper_k8s_operator.Events.Restore.Network.{Network, flag, step_done, Abstracts}
use zookeeper_k8s_operator.Events.Restore.Network.Lists.{All-of_get_elem?}
use zookeeper_k8s_operator.Events.Restore.Rounds.{
  Hooks, none_yet, one_more, Rounds, no_round, one_round, IsFair,
}
use zookeeper_k8s_operator.Events.Restore.Rounds.Hook.{Turned, Turn-Turned}

length-set : (ps : List RestoreStep) (i : ℕ) (p : RestoreStep) → length (set ps i p) ≡ length ps
length-set [] i p = refl
length-set (q ∷ ps) zero p = refl
length-set (q ∷ ps) (suc i) p = ap suc (length-set ps i p)

below_length :
    (ps : List RestoreStep) (i : ℕ) {p : RestoreStep} → get_elem? ps i ≡ some p → i < length ps
below_length [] i e = cc
below_length (q ∷ ps) zero e = omega arith
below_length (q ∷ ps) (suc i) e = omega (arith, below_length ps i e)

same_length : {net : Network} {f : Flow} → Abstracts net f → length net.units ≡ length f.progress
same_length {net} {f} a =
    sym (length-map step_done net.units) ∙ ap length a.progress ∙ length-map some f.progress

-- these units have done the instruction, and if the leader is among them it found some unit behind
record HaveDone (leader : ℕ) (f : Flow) (is : List ℕ) : Type 0 where
  each :
      (i : ℕ) (p : RestoreStep)
      → any (λ j. j == i) is ≡ true
      → get_elem? f.progress i ≡ some p
      → p ≡ f.instruction
  behind : any (λ j. j == leader) is ≡ true → Everyone (λ p. p ≡ f.instruction) f → ⊥

Left : ℕ → Flow → List ℕ → Flow → Type 0
Left leader f is g = (g.under_way ≡ false) ⊎ ((work g < work f) ⊎ ((g ≡ f) × HaveDone leader f is))

-- What hooks of the listed units leave.
record Swept (leader : ℕ) (f : Flow) (is : List ℕ) (after : Network) : Type 0 where
  to : Flow
  says : Abstracts after to
  live : IsLive to
  size : length to.progress ≡ length f.progress
  left : Left leader f is to

turn-off :
    (leads : Bool) (i : ℕ) (p : RestoreStep) (f : Flow)
    → f.under_way ≡ false
    → (turn_of leads i p f).under_way ≡ false
unfolding local_flow local_step
turn-off leads i p f off = rw off refl

turn-size :
    (leads : Bool) (i : ℕ) (p : RestoreStep) (f : Flow)
    → length (turn_of leads i p f).progress ≡ length f.progress
unfolding local_flow
turn-size leads i p f = length-set f.progress i _

HaveDone-more :
    {leader i : ℕ} {f : Flow} {is : List ℕ} {p : RestoreStep}
    → HaveDone leader f is
    → get_elem? f.progress i ≡ some p
    → p ≡ f.instruction
    → (i ≡ leader → Everyone (λ q. q ≡ f.instruction) f → ⊥)
    → HaveDone leader f (i ∷ is)
HaveDone-more {leader} {i} {f} {is} {p} h at done behind = record {
  each = λ j q there e. elim (Bool-cases (i == j)) [
    | inl same ↦ here_done j q ((==_iff i j).0 same) e
    | inr other ↦ h.each j q (rest other there) e
  ];
  behind = λ there all. elim (Bool-cases (i == leader)) [
    | inl same ↦ behind ((==_iff i leader).0 same) all
    | inr other ↦ h.behind (rest other there) all
  ];
}
  where
    here_done :
        (j : ℕ) (q : RestoreStep) → i ≡ j → get_elem? f.progress j ≡ some q → q ≡ f.instruction
    here_done j q e there = cc

    rest : {a b : Bool} → a ≡ false → a || b ≡ true → b ≡ true
    rest h k = ground (arith, h, k)

-- a turn after others
turn-Left :
    {leader i : ℕ} (f : Flow) {g : Flow} (is : List ℕ) {after : Network}
    → Left leader f is g
    → IsLive g
    → (t : Turned leader g i after) → Left leader f (i ∷ is) (turn_of t.leads i t.step g)
unfolding Left
turn-Left {leader} {i} f {g} is left live t = elim left [
  | inl off ↦ inl (turn-off t.leads i t.step g off)
  | inr (inl less) ↦ elim after_turn [
    | inl off ↦ inl off
    | inr (inl fewer) ↦ inr (inl (omega (arith, less, fewer)))
    | inr (inr (same, _, _)) ↦ inr (inl (omega (arith, less, ap work same)))
  ]
  | inr (inr (same, done)) ↦ elim after_turn [
    | inl off ↦ inl off
    | inr (inl fewer) ↦ inr (inl (omega (arith, fewer, ap work same)))
    | inr (inr (still, own, follows)) ↦ inr (
        inr (
          still ∙ same,
          (rw same at (
              HaveDone-more {f = g} (rw (sym same) at done) t.at own
                (λ e all. clash follows (t.must e all)))),
        ))
  ]
]
  where
    clash : {b : Bool} → b ≡ false → b ≡ true → ⊥
    clash e h = cc

    after_turn : After t.leads t.step g (turn_of t.leads i t.step g)
    after_turn =
        (turn_of-After t.leads g.under_way g.instruction g.progress i t.at t.everyone live).1

sweep :
    {leader : ℕ} {net after : Network} {f : Flow} {is : List ℕ}
    → Abstracts net f
    → IsLive f
    → Hooks leader net is after
    → Swept leader f is after
unfolding Left
sweep {f = f} a live none_yet = record {
  to = f;
  says = a;
  live = live;
  size = refl;
  left = inr (inr (refl, record { each = λ i p h. cc; behind = λ h. cc }));
}
sweep {leader} {f = f} a live (one_more {i} {is} hooks turn) =
    let before = sweep a live hooks in
    let t = Turn-Turned before.says turn in
    record {
      to = turn_of t.leads i t.step before.to;
      says = t.says;
      live =
          (turn_of-After t.leads before.to.under_way before.to.instruction before.to.progress i t.at
            t.everyone before.live).0;
      size = turn-size t.leads i t.step before.to ∙ before.size;
      left = turn-Left f is before.left before.live t;
    }

-- a round of a restore that is under way
fair_sweep :
    (leader : ℕ) {net after : Network} {f : Flow} (is : List ℕ)
    → Abstracts net f
    → IsFair net is
    → leader < length net.units
    → (s : Swept leader f is after) → (s.to.under_way ≡ false) ⊎ (work s.to < work f)
unfolding Left
fair_sweep leader {net} {after} {f} is a fair present s = elim s.left [
  | inl off ↦ inl off
  | inr (inl less) ↦ inr less
  | inr (inr (_, done)) ↦ absurd (done.behind (fair leader present) (all_done done))
]
  where
    all_done : HaveDone leader f is → Everyone (λ p. p ≡ f.instruction) f
    all_done done =
        All-of_get_elem? (λ p. p ≡ f.instruction) f.progress
          (λ i p at. done.each i p (fair i (rw (same_length a) (below_length f.progress i at))) at)

-- a round leaves a restore that is over as it is
off_sweep :
    {leader : ℕ} {f : Flow} {is : List ℕ} {after : Network}
    → f.under_way ≡ false
    → (s : Swept leader f is after) → s.to.under_way ≡ false
unfolding Left work work_of
off_sweep {leader} {f} off s = elim s.left [
  | inl still ↦ still
  | inr (inl less) ↦ absurd (none_left f off less)
  | inr (inr (same, _)) ↦ ap (λ (g : Flow). g.under_way) same ∙ off
]
  where
    none_left : {n : ℕ} (f : Flow) → f.under_way ≡ false → n < work f → ⊥
    none_left f e h = ground (arith, e, h)

-- What rounds leave: no restore, or as much less work as there were rounds.
record Rounded (f : Flow) (n : ℕ) (after : Network) : Type 0 where
  to : Flow
  says : Abstracts after to
  live : IsLive to
  size : length to.progress ≡ length f.progress
  left : (to.under_way ≡ false) ⊎ (work to + n ≤ work f)

rounds_left :
    (leader : ℕ) {net after : Network} {f : Flow} {n : ℕ}
    → Abstracts net f
    → IsLive f
    → leader < length net.units
    → Rounds leader net n after
    → Rounded f n after
rounds_left leader {f = f} a live present no_round = record {
  to = f;
  says = a;
  live = live;
  size = refl;
  left = inr (omega arith);
}
rounds_left leader {net} {f = f} a live present (one_round {n} {is} {mid} rounds fair hooks) =
    let before = rounds_left leader a live present rounds in
    let s = sweep before.says before.live hooks in
    let still_present : leader < length mid.units =
      omega (arith, present, same_length a, same_length before.says, before.size) in
    record {
      to = s.to;
      says = s.says;
      live = s.live;
      size = s.size ∙ before.size;
      left = elim before.left [
        | inl off ↦ inl (off_sweep off s)
        | inr few ↦ elim (fair_sweep leader is before.says fair still_present s) [
          | inl off ↦ inl off
          | inr less ↦ inr (omega (arith, few, less))
        ]
      ];
    }

left_after-le : (p : RestoreStep) → left_after p ≤ 4
unfolding left_after
left_after-le p = ground arith

left_of-le : (ps : List RestoreStep) → left_of ps ≤ 4 * length ps
unfolding left_of
left_of-le [] = omega arith
left_of-le (p ∷ ps) = omega (arith, left_after-le p, left_of-le ps)

work_bound : (f : Flow) → work f ≤ 4 * length f.progress + 5
work_bound f = bound f.under_way f.instruction f.progress
  where
    bound :
        (u : Bool) (k : RestoreStep) (ps : List RestoreStep)
        → work (flow_of u k ps) ≤ 4 * length ps + 5
    bound false k ps = unfold work work_of in omega arith
    bound true k ps = unfold work work_of in omega (arith, left_after-le k, left_of-le ps)

no_work : (f : Flow) → work f ≤ 0 → f.under_way ≡ false
unfolding work work_of
no_work f h = elim (Bool-cases f.under_way) [
  | inr off ↦ off
  | inl on ↦ absurd (omega (arith, (rw on at h)))
]

-- Where no unit still has the progress of the restore before, and the leader is one of the units:
-- after four rounds for each unit and five more, in each of which every unit runs a hook of a
-- changed peer relation that returns, in any order and beside any handlers that are not of the
-- restore flow, no restore is under way.
pub rounds_finish :
    (leader : ℕ) {net after : Network} {f : Flow} {n : ℕ}
    → Abstracts net f
    → IsLive f
    → leader < length net.units
    → Rounds leader net n after
    → 4 * length net.units + 5 ≤ n
    → flag after.app_data ≡ false
rounds_finish leader {net} {after} {f} {n} a live present rounds enough =
    let end = rounds_left leader a live present rounds in
    end.says.under_way ∙ elim end.left [
      | inl off ↦ off
      | inr few ↦ no_work end.to (omega (arith, few, work_bound f, same_length a, enough))
    ]
