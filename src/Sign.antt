-- ===== src/Sign.antt =====
-- sdk-ts/src/sign.ts: the signature header `t=<seconds>,v1=<hex>` and its check.
pub mod Parsing
pub mod Verdicts
use triggerlink.Prelude.{
  ℕ, ◌+◌, ◌-◌, ◌*◌, ◌/◌, ◌%◌, Option, none, some, List, [], ◌∷◌, ◌++◌, Bool, true, false, not, ◌&&◌,
  ◌||◌, Text, txt, ◌==◌, is_empty, length, ltb, nat_eq, if◌then◌else◌,
}
use triggerlink.Prelude.Decimal.{print, is_digit, digits_value}
use triggerlink.Value.{Number, nan, infinite, nat, neg, is_finite}
use triggerlink.Execx.{Host}

abbrev tolerance_sec : ℕ
tolerance_sec = 5 * 60

-- The UTF-8 bytes of a code unit that is no half of a pair, as those of a header are.
abbrev utf8_unit : ℕ → List ℕ
utf8_unit c =
    if ltb c 128
    then c ∷ []
    else if ltb c 2048
    then (192 + c / 64) ∷ (128 + c % 64) ∷ []
    else (224 + c / 4096) ∷ (128 + c / 64 % 64) ∷ (128 + c % 64) ∷ []

pub utf8 : Text → List ℕ
utf8 [] = []
utf8 (c ∷ s) = utf8_unit c ++ utf8 s

-- s.split(sep), of one character; `cur` is the part that is being read
split_from : ℕ → Text → Text → List Text
split_from sep cur [] = cur ∷ []
split_from sep cur (c ∷ s) =
    let closed = split_from sep [] s in
    let longer = split_from sep (cur ++ c ∷ []) s in if nat_eq c sep then cur ∷ closed else longer

split : ℕ → Text → List Text
unfolding split_from
split sep s = split_from sep [] s

-- `s.startsWith(p) ? s.slice(p.length) : …`
strip : Text → Text → Option Text
strip [] s = some s
strip (c ∷ p) [] = none
strip (c ∷ p) (d ∷ s) = if nat_eq c d then strip p s else none

all_digits : Text → Bool
all_digits [] = true
all_digits (c ∷ s) = is_digit c && all_digits s

-- `Number(s)`; the other forms (signs, points, exponents, blanks, …) are the host's
pub number_of : Host → Text → Number
unfolding all_digits digits_value
number_of host s =
    if not (is_empty s) && all_digits s then nat (digits_value 0 s) else host.other_number s

-- `Math.abs(now / 1000 - sec) > TOLERANCE_SEC`, for a finite `sec`, `now` in milliseconds
pub is_skewed : ℕ → Number → Bool
is_skewed now (nat sec) =
    ltb (tolerance_sec * 1000) (now - sec * 1000) || ltb (tolerance_sec * 1000) (sec * 1000 - now)
is_skewed now (neg n) = ltb (tolerance_sec * 1000) (now + (n + 1) * 1000)
is_skewed now n = true

-- one round of the loop over the parts: `ts` and `sig` so far
read_part : Text × Text → Text → Text × Text
unfolding strip
read_part (ts, sig) part = elim (strip (txt "t=") part) [
  | some rest ↦ (rest, sig)
  | none ↦ elim (strip (txt "v1=") part) [ some rest ↦ (ts, rest) | none ↦ (ts, sig) ]
]

read_parts : Text × Text → List Text → Text × Text
unfolding read_part
read_parts found [] = found
read_parts found (part ∷ parts) = read_parts (read_part found part) parts

pub parse_header : Text → Text × Text
unfolding read_parts split
parse_header header = read_parts ([], []) (split b',' header)

-- a Buffer comparison: equal lengths, and timingSafeEqual
pub same_bytes : List ℕ → List ℕ → Bool
same_bytes a b = nat_eq (length a) (length b) && a == b

module _ (host : Host) where
  pub compute_sig : Text → Text → List ℕ → Text
  unfolding utf8
  compute_sig key ts body = host.hmac_hex key (utf8 (ts ++ b'.' ∷ []) ++ body)

  unfoldable pub sign : Text → List ℕ → (now : ℕ) → Text
  unfolding compute_sig
  sign key body now =
      let t = print (now / 1000) in txt "t=" ++ (t ++ (txt ",v1=" ++ compute_sig key t body))

  -- the part of the check that follows the parsing
  pub check_parts : Text → List ℕ → ℕ → Text × Text → Bool
  check_parts key body now (ts, sig) =
      let sec = number_of host ts in
      if is_empty ts || is_empty sig
      then false
      else if not (is_finite sec)
      then false
      else if is_skewed now sec
      then false
      else same_bytes (utf8 (compute_sig key ts body)) (utf8 sig)

  -- `now` is the reading of Date.now()
  unfoldable pub verify_signature : Text → Option Text → List ℕ → (now : ℕ) → Bool
  unfolding parse_header check_parts number_of is_skewed compute_sig same_bytes
  verify_signature key none body now = false
  verify_signature key (some header) body now =
      if is_empty header then false else check_parts key body now (parse_header header)
