-- ===== src/Text.antt =====
-- Python's text operations that the operator uses: `str`, `int`, `isdigit`, `in`, `split`, `join`.
mod Decimal
mod Sorting
pub mod Split
pub mod Lines
pub mod Suffix
pub mod Parts
unfoldable pub use Sorting.{sorted, set_of}
unfoldable pub use Decimal.{str, int, isdigit, truthy}
pub use Decimal.{int-str, isdigit-str, str_inj}
pub use Sorting.{any-sorted, all-sorted}
use text.Mathlib.Text.{find?, starts_with}
use Prim.Native.String.{◌++◌, count}
use Prim.Native.Char.{Char, code}
use zookeeper_k8s_operator.Base.{
  ℕ, zero, suc, ◌-◌, String, ◌≡◌, refl, Bool, true, false, Option, none, some, List, [], ◌∷◌, ◌==◌,
  str_eq, if◌then◌else◌, leb, keep, any, not, ◌&&◌, ◌||◌,
}

-- `sub in text`
unfoldable pub str_in : String → String → Bool
str_in sub text = elim (find? text sub) [ none ↦ false | some i ↦ true ]

-- sep.join(items)
unfoldable pub join : String → List String → String
join sep [] = ""
join sep (x ∷ []) = x
join sep (x ∷ y ∷ rest) = x ++ (sep ++ join sep (y ∷ rest))

-- s.endswith(suffix)
unfoldable pub ends_with : String → String → Bool
ends_with String.[] suffix = str_eq "" suffix
ends_with (String.◌∷◌ c s) suffix =
    let rest = ends_with s suffix in str_eq (String.◌∷◌ c s) suffix || rest

-- What precedes the first `sep`, and what follows it: `s.split(sep, maxsplit=1)`.
unfoldable pub split_once : ℕ → String → String × Option String
split_once sep String.[] = ("", none)
split_once sep (String.◌∷◌ c s) =
    let rest = split_once sep s in
    if code c == sep then ("", some s) else (String.◌∷◌ c rest.0, rest.1)

unfoldable pub extend : Char → List String → List String
extend c [] = String.◌∷◌ c "" ∷ []
extend c (x ∷ xs) = String.◌∷◌ c x ∷ xs

-- s.split(sep) for a separator of one character
unfoldable pub split : ℕ → String → List String
unfolding extend
split sep String.[] = "" ∷ []
split sep (String.◌∷◌ c s) =
    let rest = split sep s in if code c == sep then "" ∷ rest else extend c rest

tests :
    (str 2181 ≡ "2181")
    × (int "010" ≡ some 10)
    × (isdigit "" ≡ false)
    × (str_in "DNS" "a DNS b" ≡ true)
    × (split b'/' "zookeeper/12" ≡ "zookeeper" ∷ "12" ∷ [])
    × (join "," ("a" ∷ "b" ∷ []) ≡ "a,b")
    × (split_once b'=' "A=B=C" ≡ ("A", some "B=C"))
unfolding str int isdigit str_in split join split_once
tests = (refl, refl, refl, refl, refl, refl, refl)

-- c.isspace()
is_space : ℕ → Bool
is_space c =
    (leb 9 c && leb c 13)
    || ((leb 28 c && leb c 32)
        || ((leb 8192 c && leb c 8202)
            || any (◌==◌ c) (133 ∷ 160 ∷ 5760 ∷ 8232 ∷ 8233 ∷ 8239 ∷ 8287 ∷ 12288 ∷ [])))

lstrip : String → String
unfolding is_space
lstrip String.[] = ""
lstrip (String.◌∷◌ c s) = let rest = lstrip s in if is_space (code c) then rest else String.◌∷◌ c s

rstrip : String → String
unfolding is_space truthy
rstrip String.[] = ""
rstrip (String.◌∷◌ c s) =
    let rest = rstrip s in if is_space (code c) && not (truthy rest) then "" else String.◌∷◌ c rest

-- s.strip()
unfoldable pub strip : String → String
unfolding lstrip rstrip
strip s = rstrip (lstrip s)

blank_pieces : String → List String
unfolding extend is_space
blank_pieces String.[] = "" ∷ []
blank_pieces (String.◌∷◌ c s) =
    let rest = blank_pieces s in if is_space (code c) then "" ∷ rest else extend c rest

-- s.split()
unfoldable pub blank_parts : String → List String
unfolding blank_pieces truthy
blank_parts s = keep truthy (blank_pieces s)

drop_last_empty : List String → List String
unfolding truthy
drop_last_empty [] = []
drop_last_empty (x ∷ []) = if truthy x then x ∷ [] else []
drop_last_empty (x ∷ y ∷ rest) = x ∷ drop_last_empty (y ∷ rest)

-- the characters but the newline at which `splitlines` ends a line
unfoldable pub is_other_break : ℕ → Bool
is_other_break c =
    (leb 11 c && leb c 13) || ((leb 28 c && leb c 30) || (c == 133 || (c == 8232 || c == 8233)))

-- a newline after a carriage return ends no line of its own
line_pieces : Bool → String → List String
unfolding extend is_other_break
line_pieces after_return String.[] = "" ∷ []
line_pieces after_return (String.◌∷◌ c s) =
    let next = line_pieces (code c == 13) s in
    if code c == 10
    then (if after_return then next else "" ∷ next)
    else if is_other_break (code c)
    then "" ∷ next
    else extend c next

-- s.splitlines()
unfoldable pub splitlines : String → List String
unfolding line_pieces drop_last_empty
splitlines s = drop_last_empty (line_pieces false s)

lines_example :
    (split 10 "a\n\nb\n" ≡ "a" ∷ "" ∷ "b" ∷ "" ∷ [])
    × (splitlines "a\n\nb\n" ≡ "a" ∷ "" ∷ "b" ∷ [])
    × (splitlines "a\r\nb\rc" ≡ "a" ∷ "b" ∷ "c" ∷ [])
    × (strip " \ta b \n" ≡ "a b")
unfolding split splitlines strip
lines_example = (refl, refl, refl, refl)

split_from : String → ℕ → String → List String
unfolding extend
split_from sep skip String.[] = "" ∷ []
split_from sep (suc skip) (String.◌∷◌ c s) = split_from sep skip s
split_from sep zero (String.◌∷◌ c s) =
    let next = "" ∷ split_from sep (count sep - 1) s in
    let longer = extend c (split_from sep zero s) in
    if starts_with (String.◌∷◌ c s) sep then next else longer

-- s.split(sep), for a `sep` that is not empty
unfoldable pub split_on : String → String → List String
unfolding split_from
split_on sep s = split_from sep 0 s

split_on_example : split_on ", " "DNS:a, IP Address:b" ≡ "DNS:a" ∷ "IP Address:b" ∷ []
unfolding split_on
split_on_example = refl

replace_from : String → String → ℕ → String → String
replace_from old new skip String.[] = ""
replace_from old new (suc skip) (String.◌∷◌ c s) = replace_from old new skip s
replace_from old new zero (String.◌∷◌ c s) =
    let replaced = new ++ replace_from old new (count old - 1) s in
    let kept = String.◌∷◌ c (replace_from old new zero s) in
    if starts_with (String.◌∷◌ c s) old then replaced else kept

-- s.replace(old, new), for an `old` that is not empty
unfoldable pub replace : String → String → String → String
unfolding replace_from
replace old new s = replace_from old new 0 s

replace_example : replace "participant" "observer" "x:participant;0" ≡ "x:observer;0"
unfolding replace
replace_example = refl
