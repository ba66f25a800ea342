-- ===== src/Sign/Parsing.antt =====
-- The parsing of the signature header, on a header that `sign` writes.
use triggerlink.Prelude.{
  ℕ, ◌≡◌, ◌≢◌, refl, ap, [], ◌∷◌, ◌++◌, arith, Text, txt, All, append_assoc, append-nil, true,
  false, is_empty,
}
use triggerlink.Prelude.Decimal.{IsDigit, print, print-IsDigit, print-ne-nil, digits_value-print}
use triggerlink.Value.{nat}
use triggerlink.Execx.{Host}
use triggerlink.Sign.{split_from, split, read_parts, parse_header, all_digits, number_of}

abbrev pub NoComma : ℕ → Type 0
NoComma c = c ≢ b','

split_from-append :
    (cur s rest : Text)
    → All NoComma s
    → split_from b',' cur (s ++ (b',' ∷ rest)) ≡ (cur ++ s) ∷ split_from b',' [] rest
unfolding split_from
split_from-append cur [] rest h = rw append-nil
split_from-append cur (c ∷ s) rest (p, h) =
    ground (arith, split_from-append (cur ++ c ∷ []) s rest h, append_assoc cur (c ∷ []) s)

split_from_last : (cur s : Text) → All NoComma s → split_from b',' cur s ≡ (cur ++ s) ∷ []
unfolding split_from
split_from_last cur [] h = rw append-nil
split_from_last cur (c ∷ s) (p, h) =
    ground (arith, split_from_last (cur ++ c ∷ []) s h, append_assoc cur (c ∷ []) s)

-- A header of the form `t=…,v1=…` is read as its two parts.
pub parse_header-parts :
    (t sig : Text)
    → All NoComma t
    → All NoComma sig
    → parse_header (txt "t=" ++ (t ++ (txt ",v1=" ++ sig))) ≡ (t, sig)
unfolding parse_header read_parts split
parse_header-parts t sig ht hs = rw (
  split_from-append [] (txt "t=" ++ t) (txt "v1=" ++ sig) (omega arith, (omega arith, ht)),
  split_from_last [] (txt "v1=" ++ sig) (omega arith, (omega arith, (omega arith, hs))),
)

all_digits_of_All : (s : Text) → All IsDigit s → all_digits s ≡ true
unfolding all_digits
all_digits_of_All [] h = refl
all_digits_of_All (c ∷ s) h = ground (arith, all_digits_of_All s h.1)

is_empty-print : (n : ℕ) → is_empty (print n) ≡ false
is_empty-print n = go (print n) (print-ne-nil n)
  where
    go : (s : Text) → s ≢ [] → is_empty s ≡ false
    go [] h = absurd (h refl)
    go (c ∷ s) h = refl

-- `Number` reads back what a template prints of a natural number.
pub number_of-print : (host : Host) (n : ℕ) → number_of host (print n) ≡ nat n
unfolding number_of
number_of-print host n =
    rw (is_empty-print n, all_digits_of_All (print n) (print-IsDigit n))
      (ap nat (digits_value-print n))
