-- ===== src/Duration.antt =====
-- Durations: `msToGoDuration` of sdk-ts/src/step.ts and `goDuration` of sdk-ts/src/serve.ts, of integers of
-- milliseconds.
pub mod RoundTrip
use triggerlink.Prelude.{
  ℕ, zero, suc, ◌+◌, ◌/◌, ◌%◌, Text, txt, [], ◌∷◌, ◌++◌, nat_eq, if◌then◌else◌, not, ◌||◌, true,
  false, ltb,
}
use triggerlink.Prelude.Decimal.{print}
use triggerlink.Value.{Number, nan, infinite, nat, neg, is_finite, is_nonpositive}
use triggerlink.Execx.{Host}
use triggerlink.Effects.{Outcome, returned, threw, new_error}

-- A duration as the options give it: a Go duration, or a number of milliseconds.
pub data Duration : Type 0 where
  go : Text → Duration
  ms : Number → Duration

-- What a template prints of a number.
unfoldable pub print_number : Number → Text
print_number nan = txt "NaN"
print_number (infinite true) = txt "-Infinity"
print_number (infinite false) = txt "Infinity"
print_number (nat n) = print n
print_number (neg n) = b'-' ∷ print (n + 1)

-- the digits after the point, with no zeros at the end
fraction : ℕ → Text
fraction r =
    let tenths = 48 + r / 100 in
    let hundredths = 48 + r / 10 % 10 in
    let thousandths = 48 + r % 10 in
    if nat_eq r 0
    then []
    else if nat_eq (r % 100) 0
    then b'.' ∷ tenths ∷ []
    else if nat_eq (r % 10) 0
    then b'.' ∷ tenths ∷ hundredths ∷ []
    else b'.' ∷ tenths ∷ hundredths ∷ thousandths ∷ []

-- `${n / 1000}` below 10^15, where the shortest decimal that reads back as the quotient is the exact one.
unfoldable pub print_thousandths : ℕ → Text
unfolding fraction
print_thousandths n = print (n / 1000) ++ fraction (n % 1000)

module _ (host : Host) where
  -- `${n / 1000}` of a number that is finite and positive; from 10^15 on the double is rounded
  abbrev pub print_quotient : Number → Text
  print_quotient (nat n) =
      if ltb n 1000000000000000 then print_thousandths n else host.large_quotient n
  print_quotient n = print_number n

  unfoldable pub ms_to_go_duration : Number → Text → Outcome Text
  ms_to_go_duration n what =
      if not (is_finite n) || is_nonpositive n
      then threw (new_error host (what ++ (txt ": invalid timeout " ++ print_number n)))
      else returned (print_quotient n ++ txt "s")

  -- a text is passed on as it is
  unfoldable pub go_duration : Duration → Text → Outcome Text
  go_duration (go s) what = returned s
  go_duration (ms n) what = ms_to_go_duration n what
