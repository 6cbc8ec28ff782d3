-- ===== src/Text/Split.antt =====
-- Splitting a text at a separator that stands in it once.
use Prim.Native.String.{◌++◌, char_at}
use text.Mathlib.TextLemmas.{nil-append, cons-append}
use Prim.Native.Char.{Char, code}
use zookeeper_k8s_operator.Base.{
  ℕ, String, ◌≡◌, refl, ap, ◌∙◌, Bool, true, not, ◌&&◌, List, All, [], ◌∷◌, ◌==◌, arith,
}
use zookeeper_k8s_operator.Text.{split, extend, join, str, isdigit, isdigit-str}
use zookeeper_k8s_operator.Text.Decimal.{all_digits, is_digit}

abbrev slash : Char
slash = char_at "/" 0

-- the character with this code does not occur
abbrev pub free : ℕ → String → Bool
free sep String.[] = true
free sep (String.◌∷◌ c s) = not (code c == sep) && free sep s

split-free : (sep : ℕ) (s : String) → free sep s ≡ true → split sep s ≡ s ∷ []
unfolding split extend
split-free sep String.[] h = refl
split-free sep (String.◌∷◌ c s) h = ground (arith, split-free sep s)

free-digits : (s : String) → all_digits s ≡ true → free b'/' s ≡ true
unfolding all_digits is_digit
free-digits String.[] h = refl
free-digits (String.◌∷◌ c s) h = ground (arith, free-digits s)

split-append :
    (c : Char) (a b : String)
    → free (code c) a ≡ true
    → split (code c) (a ++ String.◌∷◌ c b) ≡ a ∷ split (code c) b
unfolding split extend
split-append c String.[] b h = rw (nil-append (String.◌∷◌ c b)) (ground arith)
split-append c (String.◌∷◌ d a) b h =
    rw (cons-append d a (String.◌∷◌ c b)) (ground (arith, split-append c a b, h))

-- a text of one character is put before the text
pub char-append : (c : Char) (b : String) → String.◌∷◌ c "" ++ b ≡ String.◌∷◌ c b
char-append c b = cons-append c "" b ∙ ap (String.◌∷◌ c) (nil-append b)

free-str : (n : ℕ) → free b'/' (str n) ≡ true
free-str n = free-digits (str n) (digits (str n) (isdigit-str n))
  where
    digits : (s : String) → isdigit s ≡ true → all_digits s ≡ true
    digits s h = unfold isdigit in ground arith

-- A text and a number, joined by a slash, are split at that slash.
pub split-append_str :
    (a : String) (n : ℕ) → free b'/' a ≡ true → split b'/' (a ++ ("/" ++ str n)) ≡ a ∷ str n ∷ []
split-append_str a n h =
    ap (λ (t : String). split b'/' (a ++ t)) (char-append slash (str n))
    ∙ split-append slash a (str n) h
    ∙ ap (◌∷◌ a) (split-free b'/' (str n) (free-str n))

abbrev newline : Char
newline = char_at "\n" 0

-- a newline ends an empty line
pub split-newline : (t : String) → split 10 ("" ++ ("\n" ++ t)) ≡ "" ∷ split 10 t
split-newline t =
    ap (λ (rest : String). split 10 ("" ++ rest)) (char-append newline t)
    ∙ split-append newline "" t refl

-- Lines that are joined and split again are the same lines, if none has a newline.
pub split-join :
    (x : String) (xs : List String)
    → All (λ line. free 10 line ≡ true) (x ∷ xs)
    → split 10 (join "\n" (x ∷ xs)) ≡ x ∷ xs
unfolding join
split-join x [] h = split-free 10 x h.0
split-join x (y ∷ xs) h =
    ap (λ (t : String). split 10 (x ++ t)) (char-append newline (join "\n" (y ∷ xs)))
    ∙ split-append newline x (join "\n" (y ∷ xs)) h.0
    ∙ ap (◌∷◌ x) (split-join y xs h.1)
