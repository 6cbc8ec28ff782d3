-- ===== src/Text/Decimal.antt =====
-- Python's `str(n)`, `s.isdigit()` and `int(s)`, for natural numbers and ASCII digits.
use Prim.Native.Char.{Char, code}
use Prim.Native.String.{char_at}
use zookeeper_k8s_operator.Base.{
  ℕ, zero, suc, ◌+◌, ◌-◌, ◌*◌, ◌/◌, ◌%◌, ◌<◌, String, ◌≡◌, refl, ap, Bool, true, false, ◌&&◌,
  Option, none, some, ltb, leb, if◌then◌else◌, arith, Bool-cases, inl, inr, ◌∙◌,
}

digit : ℕ → Char
digit d = char_at "0123456789" d

-- `fuel` is one more than the number, which has fewer digits than that.
str_digits : ℕ → ℕ → String → String
str_digits zero n acc = acc
str_digits (suc fuel) n acc =
    let c = digit (n % 10) in
    let rest = str_digits fuel (n / 10) (String.◌∷◌ c acc) in
    if ltb n 10 then String.◌∷◌ c acc else rest

unfoldable pub str : ℕ → String
unfolding str_digits digit
str n = str_digits (suc n) n ""

unfoldable pub is_digit : Char → Bool
is_digit c = leb b'0' (code c) && leb (code c) b'9'

unfoldable pub all_digits : String → Bool
all_digits String.[] = true
all_digits (String.◌∷◌ c s) = is_digit c && all_digits s

-- `bool(s)` of a text: false exactly at the empty one
unfoldable pub truthy : String → Bool
truthy String.[] = false
truthy (String.◌∷◌ c s) = true

unfoldable pub isdigit : String → Bool
unfolding truthy all_digits is_digit
isdigit s = truthy s && all_digits s

int_from : ℕ → String → ℕ
int_from n String.[] = n
int_from n (String.◌∷◌ c s) = int_from (n * 10 + (code c - b'0')) s

-- `none` is a ValueError
unfoldable pub int : String → Option ℕ
unfolding isdigit int_from
int s = if isdigit s then some (int_from 0 s) else none

code-digit : (d : ℕ) → d < 10 → code (digit d) ≡ d + 48
unfolding digit
code-digit zero h = refl
code-digit (suc zero) h = refl
code-digit (suc (suc zero)) h = refl
code-digit (suc (suc (suc zero))) h = refl
code-digit (suc (suc (suc (suc zero)))) h = refl
code-digit (suc (suc (suc (suc (suc zero))))) h = refl
code-digit (suc (suc (suc (suc (suc (suc zero)))))) h = refl
code-digit (suc (suc (suc (suc (suc (suc (suc zero))))))) h = refl
code-digit (suc (suc (suc (suc (suc (suc (suc (suc zero)))))))) h = refl
code-digit (suc (suc (suc (suc (suc (suc (suc (suc (suc zero))))))))) h = refl
code-digit (suc (suc (suc (suc (suc (suc (suc (suc (suc (suc n)))))))))) h = absurd (omega arith)

int_from-str_digits :
    (fuel n : ℕ) (acc : String) → n < fuel → int_from 0 (str_digits fuel n acc) ≡ int_from n acc
unfolding str_digits int_from
int_from-str_digits zero n acc h = absurd (omega arith)
int_from-str_digits (suc fuel) n acc h = elim (Bool-cases (ltb n 10)) [
  | inl small ↦ rw small (ap (λ (m : ℕ). int_from m acc) (ground (arith, code-digit (n % 10))))
  | inr big ↦ rw big (
      int_from-str_digits fuel (n / 10) _ (ground arith)
      ∙ ap (λ (m : ℕ). int_from m acc) (ground (arith, code-digit (n % 10))))
]

digit-is_digit : (d : ℕ) → d < 10 → is_digit (digit d) ≡ true
unfolding is_digit
digit-is_digit d h = ground (arith, code-digit d)

all_digits-str_digits :
    (fuel n : ℕ) (acc : String) → all_digits acc ≡ true → all_digits (str_digits fuel n acc) ≡ true
unfolding str_digits all_digits
all_digits-str_digits zero n acc h = h
all_digits-str_digits (suc fuel) n acc h = ground (
  arith,
  digit-is_digit (n % 10),
  all_digits-str_digits fuel (n / 10) (String.◌∷◌ (digit (n % 10)) acc),
)

truthy-str_digits :
    (fuel n : ℕ) (acc : String) → truthy acc ≡ true → truthy (str_digits fuel n acc) ≡ true
unfolding str_digits truthy
truthy-str_digits zero n acc h = h
truthy-str_digits (suc fuel) n acc h =
    ground (arith, truthy-str_digits fuel (n / 10) (String.◌∷◌ (digit (n % 10)) acc))

truthy-str : (fuel n : ℕ) → truthy (str_digits (suc fuel) n "") ≡ true
unfolding str_digits truthy
truthy-str fuel n = ground (arith, truthy-str_digits fuel (n / 10) (String.◌∷◌ (digit (n % 10)) ""))

pub isdigit-str : (n : ℕ) → isdigit (str n) ≡ true
isdigit-str n =
    unfold isdigit str in
    ground (arith, truthy-str n n, all_digits-str_digits (suc n) n "" (unfold all_digits in refl))

-- Reading a printed number gives the number back.
pub int-str : (n : ℕ) → int (str n) ≡ some n
int-str n =
    unfold int in
    rw (isdigit-str n) (
      ap some
        (unfold str in (int_from-str_digits (suc n) n "" (omega arith) ∙ unfold int_from in refl)))

-- Different numbers print differently.
pub str_inj : (m n : ℕ) → str m ≡ str n → m ≡ n
str_inj m n e = ground (arith, int-str m, int-str n, ap int e)
