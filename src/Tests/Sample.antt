-- ===== src/Tests/Sample.antt =====
-- A host whose digests are readable: SHA-256 is the identity, and HMAC writes its message in ones and
-- zeros, behind an `a`.
use triggerlink.Prelude.{
  ℕ, zero, suc, ◌≡◌, ◌≢◌, refl, sym, none, List, [], ◌∷◌, Text, txt, All, arith,
}
use triggerlink.Value.{nan}
use triggerlink.Execx.{Host}
use triggerlink.Execx.Keys.{CollisionFree}
use triggerlink.Sign.Verdicts.{HasHexDigests, IsHex}

-- a number in zeros, ended by a one
unary_number : ℕ → Text → Text
unary_number zero rest = b'1' ∷ rest
unary_number (suc n) rest = b'0' ∷ unary_number n rest

unfoldable pub unary : List ℕ → Text
unfolding unary_number
unary [] = []
unary (n ∷ m) = unary_number n (unary m)

abbrev pub host : Host
host = record {
  sha256_hex = λ s. s;
  hmac_hex = λ key message. b'a' ∷ unary message;
  stack = λ message. txt "at";
  parse_date = λ s. nan;
  iso = λ t. txt "date";
  other_number = λ s. nan;
  large_quotient = λ n. txt "1e+12";
  parse_json = λ body. none;
}

pub host-CollisionFree : (f : Text) → CollisionFree host f
host-CollisionFree f s t m n e = e

unary_number-IsHex : (n : ℕ) (rest : Text) → All IsHex rest → All IsHex (unary_number n rest)
unfolding unary_number
unary_number-IsHex zero rest h = (omega arith, h)
unary_number-IsHex (suc n) rest h = (omega arith, unary_number-IsHex n rest h)

unary-IsHex : (m : List ℕ) → All IsHex (unary m)
unfolding unary
unary-IsHex [] = tt
unary-IsHex (n ∷ m) = unary_number-IsHex n (unary m) (unary-IsHex m)

pub host-HasHexDigests : HasHexDigests host
host-HasHexDigests = record {
  hex = λ key message. (omega arith, unary-IsHex message);
  nonempty = λ key message e. cc;
}

unary_number_injective :
    (a b : ℕ) (r t : Text) → unary_number a r ≡ unary_number b t → (a ≡ b) × (r ≡ t)
unfolding unary_number
unary_number_injective zero zero r t e = (refl, cc)
unary_number_injective zero (suc b) r t e = absurd (ground arith)
unary_number_injective (suc a) zero r t e = absurd (ground arith)
unary_number_injective (suc a) (suc b) r t e =
    let (same, rest) = unary_number_injective a b r t (cc) in (cc, rest)

unary_number-ne-nil : (n : ℕ) (r : Text) → unary_number n r ≢ []
unfolding unary_number
unary_number-ne-nil zero r e = cc
unary_number-ne-nil (suc n) r e = cc

unary_injective : (m n : List ℕ) → unary m ≡ unary n → m ≡ n
unfolding unary
unary_injective [] [] e = refl
unary_injective [] (b ∷ n) e = absurd (unary_number-ne-nil b (unary n) (sym e))
unary_injective (a ∷ m) [] e = absurd (unary_number-ne-nil a (unary m) e)
unary_injective (a ∷ m) (b ∷ n) e =
    let (same, rest) = unary_number_injective a b (unary m) (unary n) e in
    cc (same, unary_injective m n rest)

pub host-hmac_injective :
    (key : Text) (m n : List ℕ) → host.hmac_hex key m ≡ host.hmac_hex key n → m ≡ n
host-hmac_injective key m n e = unary_injective m n (cc)
