-- ===== src/Base/Text.antt =====
-- Python texts as the native `String`: the tests that the parts share.
use Prim.Native.Nat.{ℕ, zero, suc, ◌+◌, ◌/◌, ◌%◌, ◌<◌}
use Prim.Native.Char.{code}
use Prim.Native.String
use mathlib.Core.List.{List, [], ◌∷◌}
use native.Mathlib.Omega.{arith}
use Prim.Native.String.{String}
use mathlib.Core.Path.{◌≡◌, refl}
use mathlib.Core.Option.{none, some}
use mathlib.Core.Logic.{◌↔◌}
use mathlib.Core.Bool.{Bool, true, false, ◌&&◌}
use turbobond.Base.Lists.{get_elem?}
use turbobond.Base.Tests.{if◌then◌else◌, ◌==◌}
use text.Mathlib.Text
use text.Mathlib.TextEquality.{eq_iff}
use text.Mathlib.TextPositions.{eq_refl}

abbrev pub text_eq : String → String → Bool
text_eq a b = text.Mathlib.Text.◌==◌ a b

-- `not text`
abbrev pub is_empty : String → Bool
is_empty a = text_eq a ""

-- `a or b` on texts
abbrev pub or_text : String → String → String
or_text a b = if is_empty a then b else a

pub text_eq_refl : (a : String) → text_eq a a ≡ true
text_eq_refl a = eq_refl a

pub text_eq_iff : (a b : String) → (text_eq a b ≡ true) ↔ (a ≡ b)
text_eq_iff a b = eq_iff a b

-- `len(text)`
unfoldable pub text_length : String → ℕ
text_length String.[] = 0
text_length (String.◌∷◌ c s) = text_length s + 1

infixr 50 ◌<>◌
-- `a + b` on texts, and the parts of an f-string.
abbrev pub ◌<>◌ : String → String → String
a <> b = Prim.Native.String.◌++◌ a b

abbrev digit_names : List String
digit_names = "0" ∷ "1" ∷ "2" ∷ "3" ∷ "4" ∷ "5" ∷ "6" ∷ "7" ∷ "8" ∷ "9" ∷ []

abbrev digit : ℕ → String
digit n = elim (get_elem? digit_names n) [ none ↦ "" | some d ↦ d ]

-- The digits of a number on fuel, in front of the ones that are there.
unfoldable pub decimal_on : ℕ → ℕ → String → String
decimal_on zero n rest = rest
decimal_on (suc f) n rest = elim (n / 10) [
  | zero ↦ digit (n % 10) <> rest
  | suc q ↦ decimal_on f (suc q) (digit (n % 10) <> rest)
]

-- `str(n)`
unfoldable pub decimal : ℕ → String
decimal n = decimal_on (n + 1) n ""

-- Any fuel above the number gives the same digits.
pub decimal_on_enough :
    (f g n : ℕ) (rest : String) → n < f → n < g → decimal_on f n rest ≡ decimal_on g n rest
unfolding decimal_on
decimal_on_enough zero g n rest h k = absurd (omega arith)
decimal_on_enough (suc f) zero n rest h k = absurd (omega arith)
decimal_on_enough (suc f) (suc g) n rest h k =
    elim (n / 10)
        as (λ q.
          n / 10 ≡ q
          → elim q as (λ x. String) [
            | zero ↦ digit (n % 10) <> rest
            | suc p ↦ decimal_on f (suc p) (digit (n % 10) <> rest)
          ]
            ≡ elim q as (λ x. String) [
              | zero ↦ digit (n % 10) <> rest
              | suc p ↦ decimal_on g (suc p) (digit (n % 10) <> rest)
            ]) [
              | zero ↦ λ e. refl
              | suc q ↦ λ e.
                  decimal_on_enough f g (suc q) (digit (n % 10) <> rest) (omega arith) (omega arith)
            ]
      refl

abbrev hex_names : List String
hex_names =
    "0" ∷ "1" ∷ "2" ∷ "3" ∷ "4" ∷ "5" ∷ "6" ∷ "7" ∷ "8" ∷ "9" ∷ "a" ∷ "b" ∷ "c" ∷ "d" ∷ "e" ∷ "f"
    ∷ []

abbrev hex_digit : ℕ → String
hex_digit n = elim (get_elem? hex_names n) [ none ↦ "" | some d ↦ d ]

unfoldable pub hex_on : ℕ → ℕ → String → String
hex_on zero n rest = rest
hex_on (suc f) n rest = elim (n / 16) [
  | zero ↦ hex_digit (n % 16) <> rest
  | suc q ↦ hex_on f (suc q) (hex_digit (n % 16) <> rest)
]

-- `hex(n)`
unfoldable pub hex : ℕ → String
hex n = "0x" <> hex_on (n + 1) n ""

-- Any fuel above the number gives the same digits.
pub hex_on_enough : (f g n : ℕ) (rest : String) → n < f → n < g → hex_on f n rest ≡ hex_on g n rest
unfolding hex_on
hex_on_enough zero g n rest h k = absurd (omega arith)
hex_on_enough (suc f) zero n rest h k = absurd (omega arith)
hex_on_enough (suc f) (suc g) n rest h k =
    elim (n / 16)
        as (λ q.
          n / 16 ≡ q
          → elim q as (λ x. String) [
            | zero ↦ hex_digit (n % 16) <> rest
            | suc p ↦ hex_on f (suc p) (hex_digit (n % 16) <> rest)
          ]
            ≡ elim q as (λ x. String) [
              | zero ↦ hex_digit (n % 16) <> rest
              | suc p ↦ hex_on g (suc p) (hex_digit (n % 16) <> rest)
            ]) [
              | zero ↦ λ e. refl
              | suc q ↦ λ e.
                  hex_on_enough f g (suc q) (hex_digit (n % 16) <> rest) (omega arith) (omega arith)
            ]
      refl

-- `sep.join(texts)`
unfoldable pub join : String → List String → String
join sep [] = ""
join sep (t ∷ []) = t
join sep (t ∷ u ∷ ts) = t <> sep <> join sep (u ∷ ts)

unfoldable pub starts_with : String → String → Bool
starts_with String.[] s = true
starts_with (String.◌∷◌ c p) String.[] = false
starts_with (String.◌∷◌ c p) (String.◌∷◌ d s) = (code c == code d) && starts_with p s

-- `text.count(word)`, for a word of which no end is a beginning, so that no two overlap.
unfoldable pub count_text : String → String → ℕ
count_text word String.[] = 0
count_text word (String.◌∷◌ c s) =
    let rest = count_text word s in if starts_with word (String.◌∷◌ c s) then rest + 1 else rest

decimal_5060 : decimal 5060 ≡ "5060"
unfolding decimal decimal_on
decimal_5060 = refl

decimal_0 : decimal 0 ≡ "0"
unfolding decimal decimal_on
decimal_0 = refl

count_two : count_text "ab" "xabyab" ≡ 2
unfolding count_text starts_with
count_two = refl

hex_364 : hex 364 ≡ "0x16c"
unfolding hex hex_on
hex_364 = refl
