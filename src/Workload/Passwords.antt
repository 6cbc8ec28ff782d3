-- ===== src/Workload/Passwords.antt =====
-- `generate_password` of src/workload.py.
use Prim.Native.String.{◌++◌ as cat, count}
use Prim.Native.String.count
use Prim.Native.Char.{Char, code}
use zookeeper_k8s_operator.Base.{
  ℕ, zero, suc, String, ◌≡◌, refl, ap, ◌∙◌, Bool, true, false, ◌&&◌, ◌||◌, ◌==◌, leb, arith,
}

-- string.ascii_letters and string.digits
abbrev ascii_letters : String
ascii_letters = "abcdefghijklmnopqrstuvwxyzABCDEFGHIJKLMNOPQRSTUVWXYZ"

abbrev digits : String
digits = "0123456789"

unfoldable pub alphabet : String
alphabet = cat ascii_letters digits

-- `choice s n` is the character of `s` that the n-th call of `secrets.choice` gives.
module _ (choice : String → ℕ → Char) where
  characters : ℕ → ℕ → String
  unfolding alphabet
  characters zero n = ""
  characters (suc left) n = String.◌∷◌ (choice alphabet n) (characters left (suc n))

  unfoldable pub generate_password : String
  unfolding characters
  generate_password = characters 32 0

unfoldable pub is_letter_or_digit : Char → Bool
is_letter_or_digit c =
    (leb b'a' (code c) && leb (code c) b'z')
    || ((leb b'A' (code c) && leb (code c) b'Z') || (leb b'0' (code c) && leb (code c) b'9'))

unfoldable pub all_letters_or_digits : String → Bool
all_letters_or_digits String.[] = true
all_letters_or_digits (String.◌∷◌ c s) = is_letter_or_digit c && all_letters_or_digits s

-- the character occurs in the text
unfoldable pub occurs : Char → String → Bool
occurs c String.[] = false
occurs c (String.◌∷◌ d s) = (code c == code d) || occurs c s

occurs-letter :
    (c : Char) (s : String)
    → all_letters_or_digits s ≡ true
    → occurs c s ≡ true
    → is_letter_or_digit c ≡ true
unfolding all_letters_or_digits occurs is_letter_or_digit
occurs-letter c String.[] h k = cc
occurs-letter c (String.◌∷◌ d s) h k = ground (arith, h, k, occurs-letter c s)

plain-alphabet : all_letters_or_digits alphabet ≡ true
unfolding alphabet all_letters_or_digits is_letter_or_digit
plain-alphabet = refl

module _ (choice : String → ℕ → Char)
    (drawn : (s : String) (n : ℕ) → (leb 1 (count s) ≡ true) → occurs (choice s n) s ≡ true) where
  length-characters : (left n : ℕ) → count (characters choice left n) ≡ left
  unfolding characters
  length-characters zero n = refl
  length-characters (suc left) n =
      count.cons (choice alphabet n) (characters choice left (suc n))
      ∙ ap suc (length-characters left (suc n))

  letter-drawn : (n : ℕ) → is_letter_or_digit (choice alphabet n) ≡ true
  letter-drawn n =
      occurs-letter (choice alphabet n) alphabet plain-alphabet
        (drawn alphabet n (unfold alphabet in refl))

  plain-characters : (left n : ℕ) → all_letters_or_digits (characters choice left n) ≡ true
  unfolding characters all_letters_or_digits
  plain-characters zero n = refl
  plain-characters (suc left) n = ground (arith, letter-drawn n, plain-characters left (suc n))

  -- Where a choice from a text that is not empty gives one of its characters, a generated password has 32
  -- characters, all of them letters or digits.
  pub generate_password_lem :
      (count (generate_password choice) ≡ 32)
      × (all_letters_or_digits (generate_password choice) ≡ true)
  unfolding generate_password
  generate_password_lem = (length-characters 32 0, plain-characters 32 0)
