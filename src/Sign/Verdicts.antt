-- ===== src/Sign/Verdicts.antt =====
-- What `verifySignature` accepts.
use triggerlink.Prelude.{
  ℕ, ◌+◌, ◌*◌, ◌/◌, ◌≤◌, ◌≡◌, ◌≢◌, ◌↔◌, refl, sym, ap, ◌∙◌, List, [], ◌∷◌, arith, Text, All,
  All-map, some, true, false, is_empty, ==_iff, append_cancel,
}
use triggerlink.Prelude.Decimal.{IsDigit, print, print-IsDigit, print-ne-nil}
use triggerlink.Value.{Number, nat, neg, is_finite}
use triggerlink.Execx.{Host}
use triggerlink.Sign.{
  utf8, number_of, is_skewed, parse_header, same_bytes, compute_sig, sign, check_parts,
  verify_signature,
}
use triggerlink.Sign.Parsing.{NoComma, parse_header-parts, number_of-print}

abbrev pub IsHex : ℕ → Type 0
IsHex c = (48 ≤ c) × (c ≤ 102)

-- A digest is printed in digits and lower-case letters, and is not empty.
pub record HasHexDigests (host : Host) : Type 0 where
  pub hex : (key : Text) (message : List ℕ) → All IsHex (host.hmac_hex key message)
  pub nonempty : (key : Text) (message : List ℕ) → host.hmac_hex key message ≢ []

-- The bytes of an ASCII text determine what has them.
utf8_ascii : (a s : Text) → All IsHex a → utf8 a ≡ utf8 s → a ≡ s
unfolding utf8
utf8_ascii [] [] h e = refl
utf8_ascii [] (d ∷ s) h e = ground arith
utf8_ascii (c ∷ a) [] h e = ground arith
utf8_ascii (c ∷ a) (d ∷ s) h e = ground (arith, utf8_ascii a s h.1)

same_bytes_iff : (a b : List ℕ) → (same_bytes a b ≡ true) ↔ (a ≡ b)
unfolding same_bytes
same_bytes_iff a b = ground (arith, ==_iff a b)

-- The reading of the clock and the second of the header are within five minutes.
abbrev pub IsTimely : ℕ → ℕ → Type 0
IsTimely now sec = (now ≤ sec * 1000 + 300000) × (sec * 1000 ≤ now + 300000)

is_skewed_iff : (now sec : ℕ) → (is_skewed now (nat sec) ≡ false) ↔ IsTimely now sec
unfolding is_skewed
is_skewed_iff now sec = ground arith

is_empty_of_ne : (s : Text) → s ≢ [] → is_empty s ≡ false
is_empty_of_ne [] h = absurd (h refl)
is_empty_of_ne (c ∷ s) h = refl

-- A time in range, and the digest of the time and the body.
abbrev Accepts : Host → Text → List ℕ → ℕ → Text × Text → Type 0
Accepts host key body now (ts, sig) =
    (is_empty ts ≡ false)
    × (is_finite (number_of host ts) ≡ true)
    × (is_skewed now (number_of host ts) ≡ false)
    × (sig ≡ compute_sig host key ts body)

module _ (host : Host) (digests : HasHexDigests host) where
  compute_sig-NoComma : (key t : Text) (body : List ℕ) → All NoComma (compute_sig host key t body)
  unfolding compute_sig
  compute_sig-NoComma key t body = All-map IsHex NoComma (λ c h. omega arith) _ (digests.hex key _)

  is_empty-compute_sig :
      (key t : Text) (body : List ℕ) → is_empty (compute_sig host key t body) ≡ false
  unfolding compute_sig
  is_empty-compute_sig key t body = is_empty_of_ne _ (digests.nonempty key _)

  same_sig_iff :
      (key ts sig : Text) (body : List ℕ)
      → (same_bytes (utf8 (compute_sig host key ts body)) (utf8 sig) ≡ true)
        ↔ (sig ≡ compute_sig host key ts body)
  unfolding compute_sig
  same_sig_iff key ts sig body = (
    λ h. sym (utf8_ascii _ sig (digests.hex key _) ((same_bytes_iff _ _).0 h)),
    λ e. (same_bytes_iff _ _).1 (ap utf8 (sym e)),
  )

  -- A header is accepted exactly for a time in range and the digest of its time and the body.
  check_parts_iff :
      (key : Text) (body : List ℕ) (now : ℕ) (ts sig : Text)
      → (check_parts host key body now (ts, sig) ≡ true) ↔ Accepts host key body now (ts, sig)
  unfolding check_parts
  check_parts_iff key body now ts sig =
      ground (arith, same_sig_iff key ts sig body, is_empty-compute_sig key ts body)

  verify_iff :
      (key : Text) (header : Text) (body : List ℕ) (now : ℕ)
      → is_empty header ≡ false
      → (verify_signature host key (some header) body now ≡ true)
        ↔ Accepts host key body now (parse_header header)
  unfolding verify_signature
  verify_iff key header body now h = rw h (check_parts_iff key body now _ _)

  verify_sound :
      (key header : Text) (body : List ℕ) (now : ℕ)
      → verify_signature host key (some header) body now ≡ true
      → Accepts host key body now (parse_header header)
  verify_sound key [] body now h = unfold verify_signature in cc h
  verify_sound key (c ∷ header) body now h = (verify_iff key (c ∷ header) body now refl).0 h

  parse_header-sign :
      (key : Text) (body : List ℕ) (now : ℕ)
      → parse_header (sign host key body now)
        ≡ (print (now / 1000), compute_sig host key (print (now / 1000)) body)
  unfolding sign
  parse_header-sign key body now =
      parse_header-parts _ _
        (All-map IsDigit NoComma (λ c h. omega arith) _ (print-IsDigit (now / 1000)))
        (compute_sig-NoComma key (print (now / 1000)) body)

  verify-sign-Accepts :
      (key : Text) (body : List ℕ) (now later : ℕ)
      → (verify_signature host key (some (sign host key body now)) body later ≡ true)
        ↔ Accepts host key body later
            (print (now / 1000), compute_sig host key (print (now / 1000)) body)
  verify-sign-Accepts key body now later =
      rw (parse_header-sign key body now) at
        (verify_iff key (sign host key body now) body later (unfold sign in refl))

-- A header that `sign` makes at `now` is accepted at `later`, with the same key and body, exactly if
-- the whole second of `now` and `later` are at most five minutes apart.
pub verify-sign_iff :
    (host : Host) (key : Text) (body : List ℕ) (now later : ℕ)
    → HasHexDigests host
    → (verify_signature host key (some (sign host key body now)) body later ≡ true)
      ↔ IsTimely later (now / 1000)
verify-sign_iff host key body now later digests =
    let (to, from) = verify-sign-Accepts host digests key body now later in
    (
      λ h. (is_skewed_iff later (now / 1000)).0 (rw number_of-print at (to h).2),
      λ timely. from (
        is_empty_of_ne _ (print-ne-nil (now / 1000)),
        rw number_of-print,
        rw number_of-print ((is_skewed_iff later (now / 1000)).1 timely),
        refl,
      ),
    )

is_skewed_window :
    (first last : ℕ) (sec : Number)
    → is_skewed first sec ≡ false
    → is_skewed last sec ≡ false
    → last ≤ first + 600000
unfolding is_skewed
is_skewed_window first last (nat sec) h k = ground arith
is_skewed_window first last (neg n) h k = ground arith
is_skewed_window first last n h k = cc

-- A header is accepted for at most ten minutes.
pub verify_window :
    (host : Host) (key header : Text) (body : List ℕ) (first last : ℕ)
    → HasHexDigests host
    → verify_signature host key (some header) body first ≡ true
    → verify_signature host key (some header) body last ≡ true
    → last ≤ first + 600000
verify_window host key header body first last digests h k =
    let early = verify_sound host digests key header body first h in
    let late = verify_sound host digests key header body last k in
    is_skewed_window first last (number_of host (parse_header header).0) early.2 late.2

-- A header vouches for one body under a key whose digests have no collision.
pub verify_one_body :
    (host : Host) (key header : Text) (body other : List ℕ) (now later : ℕ)
    → HasHexDigests host
    → ((m n : List ℕ) → host.hmac_hex key m ≡ host.hmac_hex key n → m ≡ n)
    → verify_signature host key (some header) body now ≡ true
    → verify_signature host key (some header) other later ≡ true
    → body ≡ other
unfolding compute_sig
verify_one_body host key header body other now later digests free h k =
    let one = verify_sound host digests key header body now h in
    let two = verify_sound host digests key header other later k in
    let same = free _ _ (sym one.3 ∙ two.3) in append_cancel _ body other same
