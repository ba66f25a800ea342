-- ===== src/Duration/RoundTrip.antt =====
-- What `msToGoDuration` of sdk-ts/src/step.ts prints, as Go reads it.
use triggerlink.Prelude.{
  ℕ, zero, suc, ◌+◌, ◌*◌, ◌-◌, ◌/◌, ◌%◌, ◌<◌, ◌≡◌, ◌↔◌, refl, ap, Option, none, some, [], ◌∷◌, ◌++◌,
  arith, Text, txt, if◌then◌else◌, nat_eq, true, false, All, append_assoc, is_empty as is_nil, ◌≤◌,
  ◌∙◌, leb,
}
use triggerlink.Prelude.Decimal.{
  print, is_digit, digits_value, digits_value-print, print-IsDigit, IsDigit,
}
use triggerlink.Value.{Number, nan, infinite, nat, neg}
use triggerlink.Execx.{Host}
use triggerlink.Effects.{returned}
use triggerlink.Duration.{fraction, print_thousandths, print_quotient, ms_to_go_duration}

-- Go's reading of a duration in seconds with at most three decimals, in milliseconds: the digits
-- after the point, the next one worth `scale`.
read_fraction : ℕ → ℕ → Text → Option ℕ
read_fraction scale acc [] = none
read_fraction scale acc (c ∷ s) =
    if is_digit c
    then read_fraction (scale / 10) (acc + scale * (c - 48)) s
    else if nat_eq c b's'
    then (if is_nil s then some acc else none)
    else none

read_whole : ℕ → Text → Option ℕ
read_whole acc [] = none
read_whole acc (c ∷ s) =
    if is_digit c
    then read_whole (acc * 10 + (c - 48)) s
    else if nat_eq c b'.'
    then read_fraction 100 (acc * 1000) s
    else if nat_eq c b's'
    then (if is_nil s then some (acc * 1000) else none)
    else none

-- A Go duration is 64-bit nanoseconds: a number of milliseconds that has more is rejected.
in_range : Option ℕ → Option ℕ
in_range none = none
in_range (some n) = if leb (n * 1000000) 9223372036854775807 then some n else none

unfoldable pub read_go_seconds : Text → Option ℕ
unfolding read_whole read_fraction in_range
read_go_seconds s = in_range (read_whole 0 s)

read_whole-append :
    (acc : ℕ) (s t : Text)
    → All IsDigit s
    → read_whole acc (s ++ t) ≡ read_whole (digits_value acc s) t
unfolding read_whole digits_value
read_whole-append acc [] t h = refl
read_whole-append acc (c ∷ s) t (d, h) =
    ground (arith, read_whole-append (acc * 10 + (c - 48)) s t h)

read_whole-fraction :
    (n r : ℕ) → r < 1000 → read_whole n (fraction r ++ txt "s") ≡ some (n * 1000 + r)
unfolding read_whole read_fraction fraction
read_whole-fraction n r h = ground arith

read_whole-print_thousandths : (n : ℕ) → read_whole 0 (print_thousandths n ++ txt "s") ≡ some n
unfolding print_thousandths
read_whole-print_thousandths n =
    rw
      (
        append_assoc,
        read_whole-append 0 (print (n / 1000)) _ (print-IsDigit (n / 1000)),
        digits_value-print,
        read_whole-fraction (n / 1000) (n % 1000) (omega arith),
      )
      (ap some (omega arith))

in_range_cases :
    (n : ℕ)
    → (n ≤ 9223372036854 → in_range (some n) ≡ some n)
      × (9223372036854 < n → in_range (some n) ≡ none)
unfolding in_range
in_range_cases n = (λ h. ground (arith, h), λ h. ground (arith, h))

print_quotient-small :
    (host : Host) (n : ℕ) → n < 1000000000000000 → print_quotient host (nat n) ≡ print_thousandths n
print_quotient-small host n h = ground (arith, h)

-- A positive integer of milliseconds below 10^15 is printed as a text that Go reads, as a duration of 64-bit
-- nanoseconds: up to 9223372036854 it is read back as that number of milliseconds, and above it is
-- rejected as out of range.
pub read-ms_to_go_duration :
    (host : Host) (n : ℕ) (what : Text)
    → 0 < n
    → n < 1000000000000000
    → (s : Text) × (ms_to_go_duration host (nat n) what ≡ returned s)
      × (n ≤ 9223372036854 → read_go_seconds s ≡ some n)
      × (9223372036854 < n → read_go_seconds s ≡ none)
unfolding ms_to_go_duration read_go_seconds
read-ms_to_go_duration host zero what h small = elim h [ ]
read-ms_to_go_duration host (suc n) what h small =
    let same = read_whole-print_thousandths (suc n) in
    let (within, beyond) = in_range_cases (suc n) in
    (
      print_thousandths (suc n) ++ txt "s",
      ap (λ q. returned (q ++ txt "s")) (print_quotient-small host (suc n) small),
      λ le. ap in_range same ∙ within le,
      λ lt. ap in_range same ∙ beyond lt,
    )

-- It is given a duration exactly for a positive integer: NaN, the infinities, 0 and the negative
-- integers throw.
pub ms_to_go_duration-returned_iff :
    (host : Host) (n : Number) (what : Text)
    → ((s : Text) × (ms_to_go_duration host n what ≡ returned s)) ↔ ((k : ℕ) × (n ≡ nat (suc k)))
unfolding ms_to_go_duration
ms_to_go_duration-returned_iff host nan what = (λ p. cc p.1, λ p. cc p.1)
ms_to_go_duration-returned_iff host (infinite true) what = (λ p. cc p.1, λ p. cc p.1)
ms_to_go_duration-returned_iff host (infinite false) what = (λ p. cc p.1, λ p. cc p.1)
ms_to_go_duration-returned_iff host (nat zero) what = (λ p. cc p.1, λ p. cc p.1)
ms_to_go_duration-returned_iff host (nat (suc k)) what = (λ p. (k, refl), λ p. (_, refl))
ms_to_go_duration-returned_iff host (neg k) what = (λ p. cc p.1, λ p. cc p.1)
