-- ===== src/Text/Suffix.antt =====
-- The end of a text that is made of two.
use Prim.Native.String.{◌++◌, count}
use text.Mathlib.TextLemmas.{nil-append, cons-append, length-append, length-cons}
use zookeeper_k8s_operator.Base.{String, ◌<◌, ◌≤◌, ◌≡◌, refl, ap, false, str_eq, eq_iff, arith}
use zookeeper_k8s_operator.Text.{ends_with}

longer : (s t : String) → count t < count s → str_eq s t ≡ false
longer s t h = ground (arith, eq_iff s t, ap count)

-- A suffix of the second text is one of the whole, and only such, if it is not longer.
pub ends_with-append :
    (a b suffix : String) → count suffix ≤ count b → ends_with (a ++ b) suffix ≡ ends_with b suffix
unfolding ends_with
ends_with-append String.[] b suffix h = rw (nil-append b) refl
ends_with-append (String.◌∷◌ c a) b suffix h =
    rw (cons-append c a b)
      (ground (arith, ends_with-append a b suffix h, longer (String.◌∷◌ c (a ++ b)) suffix bigger))
  where
    bigger : count suffix < count (String.◌∷◌ c (a ++ b))
    bigger = omega (arith, h, length-cons c (a ++ b), length-append a b)
