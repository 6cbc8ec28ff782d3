-- ===== src/Models/Bundle/Distinct.antt =====
-- The certificates in the bundle of src/core/models.py.
use zookeeper_k8s_operator.Base.{
  String, ◌≡◌, refl, false, not, ◌&&◌, List, [], ◌∷◌, any, keep, Bool, str_eq, eq_iff, arith,
}
use zookeeper_k8s_operator.Models.Bundle.{distinct_by_index}

abbrev pub IsDistinct : List String → Type 0
IsDistinct [] = Unit
IsDistinct (x ∷ xs) = (any (str_eq x) xs ≡ false) × IsDistinct xs

any-keep :
    (y x : String) (xs : List String)
    → any (str_eq y) (keep (λ z. not (str_eq x z)) xs) ≡ any (str_eq y) xs && not (str_eq x y)
any-keep y x [] = refl
any-keep y x (z ∷ xs) = ground (arith, eq_iff y z, any-keep y x xs)

keep-IsDistinct : (p : String → Bool) (xs : List String) → IsDistinct xs → IsDistinct (keep p xs)
keep-IsDistinct p [] h = h
keep-IsDistinct p (x ∷ xs) h = ground (arith, any_sub p x xs, keep-IsDistinct p xs h.1)
  where
    any_sub :
        (p : String → Bool) (y : String) (xs : List String)
        → any (str_eq y) xs ≡ false
        → any (str_eq y) (keep p xs) ≡ false
    any_sub p y [] h = refl
    any_sub p y (x ∷ xs) h = ground (arith, any_sub p y xs)

any-distinct_by_index :
    (y : String) (xs : List String) → any (str_eq y) (distinct_by_index xs) ≡ any (str_eq y) xs
unfolding distinct_by_index
any-distinct_by_index y [] = refl
any-distinct_by_index y (x ∷ xs) =
    ground (
      arith,
      eq_iff x y,
      eq_iff y x,
      any-keep y x (distinct_by_index xs),
      any-distinct_by_index y xs,
    )

IsDistinct-distinct_by_index : (xs : List String) → IsDistinct (distinct_by_index xs)
unfolding distinct_by_index
IsDistinct-distinct_by_index [] = tt
IsDistinct-distinct_by_index (x ∷ xs) = (
  ground (arith, eq_iff x x, any-keep x x (distinct_by_index xs)),
  keep-IsDistinct (λ z. not (str_eq x z)) (distinct_by_index xs) (IsDistinct-distinct_by_index xs),
)

-- The certificates of a bundle are those of the list, each once.
pub distinct_by_index_lem :
    (y : String) (xs : List String)
    → (any (str_eq y) (distinct_by_index xs) ≡ any (str_eq y) xs)
      × IsDistinct (distinct_by_index xs)
distinct_by_index_lem y xs = (any-distinct_by_index y xs, IsDistinct-distinct_by_index xs)
