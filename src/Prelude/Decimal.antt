-- ===== src/Prelude/Decimal.antt =====
-- Decimal numerals: how a natural number is printed, and read back.
use Prim.Native.Nat.{ℕ, zero, suc, ◌+◌, ◌-◌, ◌*◌, ◌/◌, ◌%◌, ◌≤◌, ◌<◌}
use mathlib.Core.Path.{◌≡◌, refl, ap, sym, ◌∙◌}
use mathlib.Core.Logic.{inl, inr, ◌≢◌}
use mathlib.Core.Bool.{Bool, ◌&&◌}
use mathlib.Core.List.{[], ◌∷◌, ◌++◌}
use native.Mathlib.Omega.{arith}
use triggerlink.Prelude.Tests.{leb, ltb, if◌then◌else◌, Bool-cases}
use triggerlink.Prelude.Lists.{All, All-append}
use triggerlink.Prelude.Texts.{Text}

abbrev pub is_digit : ℕ → Bool
is_digit c = leb 48 c && leb c 57

abbrev pub IsDigit : ℕ → Type 0
IsDigit c = (48 ≤ c) × (c ≤ 57)

print_from : ℕ → ℕ → Text
print_from zero n = []
print_from (suc f) n =
    let rest = print_from f (n / 10) in (if ltb n 10 then [] else rest) ++ (48 + n % 10) ∷ []

-- `String(n)`, `n.toString()`, and what a template prints, of an integer below 10^21.
unfoldable pub print : ℕ → Text
unfolding print_from
print n = print_from (suc n) n

-- The value of a text of digits, after the digits that were worth `acc`.
unfoldable pub digits_value : ℕ → Text → ℕ
digits_value acc [] = acc
digits_value acc (c ∷ s) = digits_value (acc * 10 + (c - 48)) s

digits_value-append :
    (acc : ℕ) (s t : Text) → digits_value acc (s ++ t) ≡ digits_value (digits_value acc s) t
unfolding digits_value
digits_value-append acc [] t = refl
digits_value-append acc (c ∷ s) t = digits_value-append (acc * 10 + (c - 48)) s t

digits_value-print_from : (f n : ℕ) → n < f → digits_value 0 (print_from f n) ≡ n
unfolding print_from digits_value
digits_value-print_from zero n h = elim h [ ]
digits_value-print_from (suc f) n h = elim (Bool-cases (ltb n 10)) [
  | inl small ↦ rw small (ground arith)
  | inr big ↦
      rw (big, digits_value-append, digits_value-print_from f (n / 10) (ground arith)) (omega arith)
]

pub digits_value-print : (n : ℕ) → digits_value 0 (print n) ≡ n
unfolding print
digits_value-print n = digits_value-print_from (suc n) n (omega arith)

pub print_injective : (m n : ℕ) → print m ≡ print n → m ≡ n
print_injective m n e = sym (digits_value-print m) ∙ ap (digits_value 0) e ∙ digits_value-print n

print_from-IsDigit : (f n : ℕ) → All IsDigit (print_from f n)
unfolding print_from
print_from-IsDigit zero n = tt
print_from-IsDigit (suc f) n = elim (Bool-cases (ltb n 10)) [
  | inl small ↦ rw small (omega arith)
  | inr big ↦ rw big (All-append IsDigit _ _ (print_from-IsDigit f (n / 10)) (omega arith))
]

pub print-IsDigit : (n : ℕ) → All IsDigit (print n)
unfolding print
print-IsDigit n = print_from-IsDigit (suc n) n

snoc-ne-nil : (s : Text) (c : ℕ) → s ++ c ∷ [] ≢ []
snoc-ne-nil [] c e = cc
snoc-ne-nil (d ∷ s) c e = cc

pub print-ne-nil : (n : ℕ) → print n ≢ []
unfolding print print_from
print-ne-nil n e = snoc-ne-nil _ (48 + n % 10) e
