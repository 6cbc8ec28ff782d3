-- ===== src/State/Turns/Search.antt =====
-- Searches for a unit among servers in some order: the lemmas behind `Agreement`.
use Prim.Native.Nat.{min}
use native.Mathlib.Decide.{dec_le}
use mathlib.Core.Path.{subst}
use zookeeper_k8s_operator.Base.{
  ℕ, ◌+◌, ◌≤◌, ◌≡◌, ◌≢◌, refl, sym, ap, ◌∙◌, Bool, true, false, not, ◌&&◌, Option, none, some, List,
  [], ◌∷◌, map, ◌==◌, ==_iff, first, any, ok, arith, Bool-cases, Option-cases, ◌⊎◌, inl, inr,
  length,
}
use zookeeper_k8s_operator.Models.Server.{ZkServer, unit_id}
use zookeeper_k8s_operator.State.Turns.{min_of, minimum, maximum}

abbrev pub contains : ℕ → List ℕ → Bool
contains n ns = any (λ k. k == n) ns

-- a number in the list is at least the minimum, and the minimum is in the list
pub min_of-le : (a n : ℕ) (l : List ℕ) → contains n (a ∷ l) ≡ true → min_of a l ≤ n
unfolding min_of
min_of-le a n [] h = ground arith
min_of-le a n (x ∷ l) h = ground (arith, min_of-le x n l)

min_left : (a m : ℕ) → a ≤ m → min a m ≡ a
min_left a m p = omega arith

min_right : (a m : ℕ) → ¬ (a ≤ m) → min a m ≡ m
min_right a m p = omega arith

contains_either :
    (a m n : ℕ) (l : List ℕ) → contains m l ≡ true → (n ≡ a) ⊎ (n ≡ m) → contains n (a ∷ l) ≡ true
contains_either a m n l h (inl e) = rw e (ground arith)
contains_either a m n l h (inr e) =
    let moved = subst (λ k. contains k l ≡ true) (sym e) h in ground arith

min-cases : (a m : ℕ) → (min a m ≡ a) ⊎ (min a m ≡ m)
min-cases a m = elim (dec_le a m) [ yes p ↦ inl (min_left a m p) | no p ↦ inr (min_right a m p) ]

min_of-mem : (a : ℕ) (l : List ℕ) → contains (min_of a l) (a ∷ l) ≡ true
unfolding min_of
min_of-mem a [] = ground arith
min_of-mem a (x ∷ l) =
    contains_either a (min_of x l) (min a (min_of x l)) (x ∷ l) (min_of-mem x l)
      (min-cases a (min_of x l))

pub minimum-eq :
    (k l : List ℕ)
    → ((n : ℕ) → contains n k ≡ contains n l)
    → length k ≡ length l
    → minimum k ≡ minimum l
unfolding minimum
minimum-eq [] [] same e = refl
minimum-eq [] (y ∷ l) same e = absurd (omega arith)
minimum-eq (x ∷ k) [] same e = absurd (omega arith)
minimum-eq (x ∷ k) (y ∷ l) same e = ap ok (
    omega (
      arith,
      min_of-le x (min_of y l) k (same (min_of y l) ∙ min_of-mem y l),
      min_of-le y (min_of x k) l (sym (same (min_of x k)) ∙ min_of-mem x k),
    ))

some_inj : (y x : ZkServer) → some y ≡ some x → y ≡ x
some_inj y x e = cc

-- a search by number finds a server with that number, and finds one where there is one
abbrev pub numbered : (ℕ → Bool) → ZkServer → Bool
numbered p x = p (unit_id x)

pub first-numbered :
    (p : ℕ → Bool) (l : List ZkServer) {x : ZkServer}
    → first (numbered p) l ≡ some x
    → p (unit_id x) ≡ true
first-numbered p [] e = cc
first-numbered p (y ∷ l) {x} e = elim (Bool-cases (p (unit_id y))) [
  | inl found ↦ subst (λ z. p (unit_id z) ≡ true) (some_inj y x (rw found at e)) found
  | inr other ↦ first-numbered p l (rw other at e)
]

first-contains :
    (p : ℕ → Bool) (l : List ZkServer) {x : ZkServer}
    → first (numbered p) l ≡ some x
    → contains (unit_id x) (map unit_id l) ≡ true
first-contains p [] e = cc
first-contains p (y ∷ l) {x} e = elim (Bool-cases (p (unit_id y))) [
  | inl found ↦
      subst (λ z. contains (unit_id z) (map unit_id (y ∷ l)) ≡ true) (some_inj y x (rw found at e))
        (ground arith)
  | inr other ↦
      contains_either (unit_id y) (unit_id x) (unit_id x) (map unit_id l)
        (first-contains p l (rw other at e)) (inr refl)
]

first-none :
    (p : ℕ → Bool) (l : List ZkServer) (n : ℕ)
    → first (numbered p) l ≡ none
    → contains n (map unit_id l) ≡ true
    → p n ≡ false
first-none p [] n e h = cc
first-none p (y ∷ l) n e h = elim (Bool-cases (p (unit_id y))) [
  | inl found ↦ let impossible = rw found at e in cc
  | inr other ↦ elim (Bool-cases (unit_id y == n)) [
    | inl here ↦ subst (λ k. p k ≡ false) ((==_iff (unit_id y) n).0 here) other
    | inr apart ↦ first-none p l n (rw other at e) (rw apart at h)
  ]
]

-- a search that succeeds among some units succeeds among the same units in another order
search_agrees :
    (p : ℕ → Bool) (k l : List ZkServer) {x : ZkServer}
    → ((n : ℕ) → contains n (map unit_id k) ≡ contains n (map unit_id l))
    → first (numbered p) k ≡ some x
    → first (numbered p) l ≢ none
search_agrees p k l {x} same e none_there =
    let no =
      first-none p l (unit_id x) none_there (sym (same (unit_id x)) ∙ first-contains p k e) in
    cc (no, first-numbered p k e)

unfoldable pub init_test : ℕ → List ℕ → ℕ → Bool
init_test low quorum_ids n = n == low && not (any (◌==◌ n) quorum_ids)

unfoldable pub follow_test : List ℕ → ℕ → Bool
follow_test quorum_ids n = elim (maximum quorum_ids) [ none ↦ false | some m ↦ n == m + 1 ]

init_test_unique :
    (low : ℕ) (q : List ℕ) (m n : ℕ) → init_test low q m ≡ true → init_test low q n ≡ true → m ≡ n
unfolding init_test
init_test_unique low q m n h k = ground arith

follow_test_unique :
    (q : List ℕ) (m n : ℕ) → follow_test q m ≡ true → follow_test q n ≡ true → m ≡ n
unfolding follow_test
follow_test_unique q m n h k = ground arith

-- The choice that `next_server` makes among some servers, once the lowest number is known and not
-- every server is in the quorum.
unfoldable pub choose : ℕ → List ℕ → List ZkServer → Option ZkServer
choose low q l = elim (first (numbered (init_test low q)) l) [
  | some x ↦ some x
  | none ↦ first (numbered (follow_test q)) l
]

choose_agrees :
    (low : ℕ) (q : List ℕ) (k l : List ZkServer) {x y : ZkServer}
    → ((n : ℕ) → contains n (map unit_id k) ≡ contains n (map unit_id l))
    → choose low q k ≡ some x
    → choose low q l ≡ some y
    → unit_id x ≡ unit_id y
unfolding choose
choose_agrees low q k l {x} {y} same ex ey =
    split (Option-cases (first (numbered (init_test low q)) k))
      (Option-cases (first (numbered (init_test low q)) l))
  where
    split :
        (first (numbered (init_test low q)) k ≡ none)
          ⊎ ((a : ZkServer) × (first (numbered (init_test low q)) k ≡ some a))
        → (first (numbered (init_test low q)) l ≡ none)
          ⊎ ((a : ZkServer) × (first (numbered (init_test low q)) l ≡ some a))
        → unit_id x ≡ unit_id y
    split (inl a) (inl b) =
        follow_test_unique q (unit_id x) (unit_id y)
          (first-numbered (follow_test q) k (rw (a, choose) at ex))
          (first-numbered (follow_test q) l (rw (b, choose) at ey))
    split (inr (a, ea)) (inr (b, eb)) =
        init_test_unique low q (unit_id x) (unit_id y)
          (first-numbered (init_test low q) k (ea ∙ rw (ea, choose) at ex))
          (first-numbered (init_test low q) l (eb ∙ rw (eb, choose) at ey))
    split (inl a) (inr (b, eb)) =
        absurd (search_agrees (init_test low q) l k (λ n. sym (same n)) eb a)
    split (inr (a, ea)) (inl b) = absurd (search_agrees (init_test low q) k l same ea b)

-- where the choice finds a server, it finds one among the same units in another order
choose_found :
    (low : ℕ) (q : List ℕ) (k l : List ZkServer) {x : ZkServer}
    → ((n : ℕ) → contains n (map unit_id k) ≡ contains n (map unit_id l))
    → choose low q k ≡ some x
    → choose low q l ≢ none
unfolding choose
choose_found low q k l {x} same e gone =
    split (Option-cases (first (numbered (init_test low q)) k))
      (Option-cases (first (numbered (init_test low q)) l))
  where
    split :
        (first (numbered (init_test low q)) k ≡ none)
          ⊎ ((a : ZkServer) × (first (numbered (init_test low q)) k ≡ some a))
        → (first (numbered (init_test low q)) l ≡ none)
          ⊎ ((a : ZkServer) × (first (numbered (init_test low q)) l ≡ some a))
        → ⊥
    split (inl a) (inl b) =
        search_agrees (follow_test q) k l same (rw (a, choose) at e) (rw (b, choose) at gone)
    split (inr (a, ea)) (inl b) = search_agrees (init_test low q) k l same ea b
    split (inl a) (inr (b, eb)) = let impossible = rw (eb, choose) at gone in cc
    split (inr (a, ea)) (inr (b, eb)) = let impossible = rw (eb, choose) at gone in cc

abbrev pub number : Option ZkServer → Option ℕ
number none = none
number (some server) = some (unit_id server)

pub choose_same :
    (low : ℕ) (q : List ℕ) (k l : List ZkServer)
    → ((n : ℕ) → contains n (map unit_id k) ≡ contains n (map unit_id l))
    → number (choose low q k) ≡ number (choose low q l)
choose_same low q k l same = split (Option-cases (choose low q k)) (Option-cases (choose low q l))
  where
    split :
        (choose low q k ≡ none) ⊎ ((x : ZkServer) × (choose low q k ≡ some x))
        → (choose low q l ≡ none) ⊎ ((y : ZkServer) × (choose low q l ≡ some y))
        → number (choose low q k) ≡ number (choose low q l)
    split (inl a) (inl b) = ap number a ∙ sym (ap number b)
    split (inr (x, ex)) (inr (y, ey)) =
        ap number ex ∙ ap some (choose_agrees low q k l same ex ey) ∙ sym (ap number ey)
    split (inr (x, ex)) (inl b) = absurd (choose_found low q k l same ex b)
    split (inl a) (inr (y, ey)) = absurd (choose_found low q l k (λ n. sym (same n)) ey a)
