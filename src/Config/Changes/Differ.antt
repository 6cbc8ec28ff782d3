-- ===== src/Config/Changes/Differ.antt =====
-- The comparison of configurations in src/managers/config.py.
use zookeeper_k8s_operator.Base.{
  String, ◌≡◌, ◌↔◌, refl, true, false, List, [], ◌∷◌, any, all, str_eq, eq_iff, arith, Bool,
}
use zookeeper_k8s_operator.Config.Changes.{sets_differ}

abbrev mem : String → List String → Bool
mem x xs = any (str_eq x) xs

all_in :
    (xs ys : List String) (x : String)
    → all (λ y. mem y ys) xs ≡ true
    → mem x xs ≡ true
    → mem x ys ≡ true
all_in [] ys x h m = ground arith
all_in (y ∷ xs) ys x h m = ground (arith, eq_iff x y, all_in xs ys x)

mem-all :
    (xs ys : List String)
    → ((x : String) → mem x xs ≡ true → mem x ys ≡ true)
    → all (λ y. mem y ys) xs ≡ true
mem-all [] ys h = refl
mem-all (x ∷ xs) ys h = ground (arith, eq_iff x x, h x, mem-all xs ys (λ y m. h y (ground arith)))

-- No difference is found exactly when the two lists have the same items, in whatever order and
-- however often.
pub sets_differ-false_iff :
    (xs ys : List String)
    → (sets_differ xs ys ≡ false) ↔ ((x : String) → any (str_eq x) xs ≡ any (str_eq x) ys)
unfolding sets_differ
sets_differ-false_iff xs ys = (
  λ h x. ground (arith, all_in xs ys x, all_in ys xs x),
  λ h. ground (
    arith,
    mem-all xs ys (λ x m. ground (arith, h x)),
    mem-all ys xs (λ x m. ground (arith, h x)),
  ),
)
