-- ===== src/Events/Restore/Network/Lists.antt =====
-- Lists of databags and of what they say.
use zookeeper_k8s_operator.Base.{
  ℕ, zero, suc, ◌≡◌, ◌≢◌, refl, ap, Option, some, List, [], ◌∷◌, map, get_elem?, set, All, Bool,
  true, all, arith, ◌++◌,
}

module _ {A B : Type 0} (f : A → Option B) where
  -- the item's image, where the images of the list are all there
  pub image_at :
      (xs : List A) (ys : List B) (i : ℕ) {a : A}
      → map f xs ≡ map some ys
      → get_elem? xs i ≡ some a
      → (b : B) × (get_elem? ys i ≡ some b) × (f a ≡ some b)
  image_at [] ys i e h = cc
  image_at (x ∷ xs) [] i e h = cc
  image_at (x ∷ xs) (y ∷ ys) zero e h = (y, refl, cc)
  image_at (x ∷ xs) (y ∷ ys) (suc i) e h = image_at xs ys i (cc) h

  pub item_at :
      (xs : List A) (ys : List B) (i : ℕ) {b : B}
      → map f xs ≡ map some ys
      → get_elem? ys i ≡ some b
      → (a : A) × (get_elem? xs i ≡ some a) × (f a ≡ some b)
  item_at [] [] i e h = cc
  item_at [] (y ∷ ys) i e h = cc
  item_at (x ∷ xs) [] i e h = cc
  item_at (x ∷ xs) (y ∷ ys) zero e h = (x, refl, cc)
  item_at (x ∷ xs) (y ∷ ys) (suc i) e h = item_at xs ys i (cc) h

  pub map-set :
      (xs : List A) (ys : List B) (i : ℕ) {a : A} {b : B}
      → map f xs ≡ map some ys
      → f a ≡ some b
      → map f (set xs i a) ≡ map some (set ys i b)
  map-set [] [] i e h = refl
  map-set [] (y ∷ ys) i e h = cc
  map-set (x ∷ xs) [] i e h = cc
  map-set (x ∷ xs) (y ∷ ys) zero e h = cc
  map-set (x ∷ xs) (y ∷ ys) (suc i) {a} {b} e h =
      let rest = map-set xs ys i {a = a} {b = b} (cc) h in cc (rest)

pub All-of_get_elem? :
    {A : Type 0} (P : A → Type 0) (xs : List A)
    → ((i : ℕ) (a : A) → get_elem? xs i ≡ some a → P a)
    → All P xs
All-of_get_elem? P [] h = tt
All-of_get_elem? P (x ∷ xs) h = (h 0 x refl, All-of_get_elem? P xs (λ i a e. h (suc i) a e))

pub all_at :
    {A D : Type 0} (q : D → Bool) (g : A → D) (xs : List A) (i : ℕ) {d : D}
    → all (λ x. q (g x)) xs ≡ true
    → get_elem? (map g xs) i ≡ some d
    → q d ≡ true
all_at q g [] i h e = cc
all_at q g (x ∷ xs) zero h e = ground (arith, e, h)
all_at q g (x ∷ xs) (suc i) {d} h e = all_at q g xs i (ground (arith, h)) e

pub all_of_items :
    {A D : Type 0} (q : D → Bool) (g : A → D) (xs : List A)
    → ((i : ℕ) (d : D) → get_elem? (map g xs) i ≡ some d → q d ≡ true)
    → all (λ x. q (g x)) xs ≡ true
all_of_items q g [] h = refl
all_of_items q g (x ∷ xs) h =
    ground (arith, h 0 (g x) refl, all_of_items q g xs (λ i d e. h (suc i) d e))

pub all-snoc_true :
    {A : Type 0} (p : A → Bool) (xs : List A) (x : A)
    → all p xs ≡ true
    → p x ≡ true
    → all p (xs ++ (x ∷ [])) ≡ true
all-snoc_true p [] x h k = ground (arith, k)
all-snoc_true p (y ∷ ys) x h k = ground (arith, h, all-snoc_true p ys x)

pub all-snoc :
    {A : Type 0} (p : A → Bool) (xs : List A) (x : A)
    → all p (xs ++ (x ∷ [])) ≡ true
    → (all p xs ≡ true) × (p x ≡ true)
all-snoc p [] x h = ground (arith, h)
all-snoc p (y ∷ ys) x h = ground (arith, h, all-snoc p ys x)

module _ {A : Type 0} where
  pub set-set : (xs : List A) (i : ℕ) (a b : A) → set (set xs i a) i b ≡ set xs i b
  set-set [] i a b = refl
  set-set (x ∷ xs) zero a b = refl
  set-set (x ∷ xs) (suc i) a b = ap (◌∷◌ x) (set-set xs i a b)

  pub get_elem?-set_same :
      (xs : List A) (i : ℕ) (a : A) {b : A}
      → get_elem? xs i ≡ some b
      → get_elem? (set xs i a) i ≡ some a
  get_elem?-set_same [] i a e = cc
  get_elem?-set_same (x ∷ xs) zero a e = refl
  get_elem?-set_same (x ∷ xs) (suc i) a e = get_elem?-set_same xs i a e

  pub get_elem?-set_other :
      (xs : List A) (i j : ℕ) (a : A) → j ≢ i → get_elem? (set xs i a) j ≡ get_elem? xs j
  get_elem?-set_other [] i j a h = refl
  get_elem?-set_other (x ∷ xs) zero zero a h = absurd (h refl)
  get_elem?-set_other (x ∷ xs) zero (suc j) a h = refl
  get_elem?-set_other (x ∷ xs) (suc i) zero a h = refl
  get_elem?-set_other (x ∷ xs) (suc i) (suc j) a h =
      get_elem?-set_other xs i j a (λ e. h (ap suc e))
