-- ===== src/Text/Sorting.antt =====
-- Python's `sorted` and `set` of texts.
use Prim.Native.String.{compare}
use Prim.Native.Nat.{Ordering}
use zookeeper_k8s_operator.Base.{
  String, Bool, true, false, List, [], ◌∷◌, str_eq, any, all, if◌then◌else◌, ◌≡◌, refl, ◌||◌, arith,
}

leb_str : String → String → Bool
leb_str a b = elim (compare a b) [ Ordering.gt ↦ false | _ ↦ true ]

insert_sorted : String → List String → List String
unfolding leb_str
insert_sorted a [] = a ∷ []
insert_sorted a (x ∷ xs) = if leb_str a x then a ∷ x ∷ xs else x ∷ insert_sorted a xs

-- Python's `sorted` on texts, which orders them by code points
unfoldable pub sorted : List String → List String
unfolding insert_sorted
sorted [] = []
sorted (x ∷ xs) = insert_sorted x (sorted xs)

-- the items of a set of texts, each once
unfoldable pub set_of : List String → List String
set_of [] = []
set_of (x ∷ xs) = let rest = set_of xs in if any (str_eq x) rest then rest else x ∷ rest

any-insert_sorted :
    (x a : String) (xs : List String)
    → any (str_eq x) (insert_sorted a xs) ≡ str_eq x a || any (str_eq x) xs
unfolding insert_sorted
any-insert_sorted x a [] = refl
any-insert_sorted x a (y ∷ xs) = ground (arith, any-insert_sorted x a xs)

-- Sorting keeps the items.
pub any-sorted : (x : String) (xs : List String) → any (str_eq x) (sorted xs) ≡ any (str_eq x) xs
unfolding sorted
any-sorted x [] = refl
any-sorted x (y ∷ xs) = ground (arith, any-insert_sorted x y (sorted xs), any-sorted x xs)

all-insert_sorted :
    (p : String → Bool) (a : String) (xs : List String)
    → p a ≡ true
    → all p xs ≡ true
    → all p (insert_sorted a xs) ≡ true
unfolding insert_sorted
all-insert_sorted p a [] h k = ground arith
all-insert_sorted p a (y ∷ xs) h k = ground (arith, all-insert_sorted p a xs)

pub all-sorted : (p : String → Bool) (xs : List String) → all p xs ≡ true → all p (sorted xs) ≡ true
unfolding sorted
all-sorted p [] h = refl
all-sorted p (y ∷ xs) h = ground (arith, all-insert_sorted p y (sorted xs), all-sorted p xs)
