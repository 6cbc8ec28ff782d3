-- ===== src/Text/Parts.antt =====
-- Which characters the parts of a text that is split have, and a text that is split at its first
-- separator.
use Prim.Native.String.{◌++◌}
use text.Mathlib.TextLemmas.{nil-append, cons-append}
use Prim.Native.Char.{Char, code}
use zookeeper_k8s_operator.Base.{
  ℕ, String, ◌≡◌, refl, ap, true, Bool-cases, inl, inr, not, ◌&&◌, List, All, [], ◌∷◌, ◌==◌, none,
  some, arith, Option,
}
use zookeeper_k8s_operator.Text.{split, extend, split_once}
use zookeeper_k8s_operator.Text.Split.{free}

pub free-append : (sep : ℕ) (a b : String) → free sep (a ++ b) ≡ (free sep a && free sep b)
free-append sep String.[] b = ap (free sep) (nil-append b)
free-append sep (String.◌∷◌ c a) b = rw (cons-append c a b) (ground (arith, free-append sep a b))

extend-free :
    (sep : ℕ) (c : Char) (parts : List String)
    → not (code c == sep) ≡ true
    → All (λ part. free sep part ≡ true) parts
    → All (λ part. free sep part ≡ true) (extend c parts)
unfolding extend
extend-free sep c [] h k = (ground (arith, h), tt)
extend-free sep c (x ∷ xs) h k = (ground (arith, h, k.0), k.1)

-- The parts of a text that is split at each separator have no separator.
pub split-parts_free : (sep : ℕ) (s : String) → All (λ part. free sep part ≡ true) (split sep s)
unfolding split
split-parts_free sep String.[] = (refl, tt)
split-parts_free sep (String.◌∷◌ c s) =
    let ih = split-parts_free sep s in
    elim (Bool-cases (code c == sep)) [
      | inl e ↦ rw e (refl, ih)
      | inr e ↦ rw e (extend-free sep c (split sep s) (ap not e) ih)
    ]

-- "".join(parts[1:]) for the parts of a text that is split once
unfoldable pub or_empty : Option String → String
or_empty none = ""
or_empty (some v) = v

free-tail : (sep : ℕ) (c : Char) (s : String) → free sep (String.◌∷◌ c s) ≡ true → free sep s ≡ true
free-tail sep c s h = ground (arith, h)

pub split_once-free :
    (sep other : ℕ) (s : String)
    → free other s ≡ true
    → (free other (split_once sep s).0 ≡ true)
      × (free sep (split_once sep s).0 ≡ true)
      × (free other (or_empty (split_once sep s).1) ≡ true)
unfolding split_once or_empty
split_once-free sep other String.[] h = (refl, refl, refl)
split_once-free sep other (String.◌∷◌ c s) h =
    let ih = split_once-free sep other s (free-tail other c s h) in
    elim (Bool-cases (code c == sep)) [
      | inl e ↦ rw e (refl, refl, free-tail other c s h)
      | inr e ↦ rw e (ground (arith, h, ih.0), ground (arith, e, ih.1), ih.2)
    ]

pub split_once-append :
    (c : Char) (a b : String)
    → free (code c) a ≡ true
    → split_once (code c) (a ++ String.◌∷◌ c b) ≡ (a, some b)
unfolding split_once
split_once-append c String.[] b h = rw (nil-append (String.◌∷◌ c b)) (ground arith)
split_once-append c (String.◌∷◌ d a) b h =
    rw (cons-append d a (String.◌∷◌ c b)) (ground (arith, split_once-append c a b, h))
