-- ===== src/Text/Lines.antt =====
-- Lines of a text that starts with a newline, by `split` and by `splitlines`.
use Prim.Native.String.{◌++◌}
use Prim.Native.Char.{Char, code}
use zookeeper_k8s_operator.Base.{
  sym, ◌==◌, ℕ, String, ◌≡◌, refl, ap, ◌∙◌, ◌||◌, List, [], ◌∷◌, map, any, str_eq, arith, inl, inr,
  Bool-cases, Bool, true, false, not, ◌&&◌,
}
use zookeeper_k8s_operator.Text.{
  split, extend, strip, splitlines, drop_last_empty, truthy, line_pieces, is_other_break,
}
use zookeeper_k8s_operator.Text.Split.{split-newline}

extend-cons :
    (c : Char) (lines : List String)
    → (line : String) × (rest : List String) × (extend c lines ≡ line ∷ rest)
unfolding extend
extend-cons c [] = (String.◌∷◌ c "", [], refl)
extend-cons c (line ∷ lines) = (String.◌∷◌ c line, lines, refl)

-- a text has one line at least
pub split-cons :
    (sep : ℕ) (s : String) → (line : String) × (rest : List String) × (split sep s ≡ line ∷ rest)
unfolding split extend
split-cons sep String.[] = ("", [], refl)
split-cons sep (String.◌∷◌ c s) = elim (Bool-cases (code c == sep)) [
  | inl ends ↦ rw ends ("", split sep s, refl)
  | inr goes_on ↦ rw goes_on (extend-cons c (split sep s))
]

-- No line but at a newline ends in the text.
unfoldable pub ends_plainly : String → Bool
ends_plainly String.[] = true
ends_plainly (String.◌∷◌ c s) = not (is_other_break (code c)) && ends_plainly s

line_pieces-plain : (s : String) → ends_plainly s ≡ true → line_pieces false s ≡ split 10 s
unfolding ends_plainly line_pieces split is_other_break
line_pieces-plain String.[] h = refl
line_pieces-plain (String.◌∷◌ c s) h = ground (arith, h, line_pieces-plain s)

splitlines-plain :
    (s : String) → ends_plainly s ≡ true → splitlines s ≡ drop_last_empty (split 10 s)
unfolding splitlines
splitlines-plain s h = ap drop_last_empty (line_pieces-plain s h)

any-drop_last_empty :
    (x : String) (lines : List String)
    → str_eq x "" || any (str_eq x) (map strip (drop_last_empty lines))
      ≡ str_eq x "" || any (str_eq x) (map strip lines)
unfolding drop_last_empty truthy strip
any-drop_last_empty x [] = refl
any-drop_last_empty x (String.[] ∷ []) = ground arith
any-drop_last_empty x (String.◌∷◌ c line ∷ []) = refl
any-drop_last_empty x (line ∷ next ∷ lines) = ground (arith, any-drop_last_empty x (next ∷ lines))

pub any-splitlines :
    (x t : String)
    → ends_plainly ("" ++ ("\n" ++ t)) ≡ true
    → any (str_eq x) (map strip (split 10 ("" ++ ("\n" ++ t))))
      ≡ any (str_eq x) (map strip (splitlines ("" ++ ("\n" ++ t))))
any-splitlines x t h =
    let (line, rest, e) = split-cons 10 t in
    rw (split-newline t, e, splitlines-plain ("" ++ ("\n" ++ t)) h)
      (same_lines x t line rest (split-newline t ∙ ap (◌∷◌ "") e))
  where
    blank :
        (x : String) (lines : List String)
        → any (str_eq x) (map strip ("" ∷ drop_last_empty lines))
          ≡ any (str_eq x) (map strip ("" ∷ lines))
    blank x lines = unfold strip in any-drop_last_empty x lines

    same_lines :
        (x t line : String) (rest : List String)
        → split 10 ("" ++ ("\n" ++ t)) ≡ "" ∷ line ∷ rest
        → any (str_eq x) (map strip ("" ∷ line ∷ rest))
          ≡ any (str_eq x) (map strip (drop_last_empty (split 10 ("" ++ ("\n" ++ t)))))
    same_lines x t line rest e =
        unfold drop_last_empty in
        sym (
          ap (λ (l : List String). any (str_eq x) (map strip (drop_last_empty l))) e
          ∙ blank x (line ∷ rest))
