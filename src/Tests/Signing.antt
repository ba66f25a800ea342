-- ===== src/Tests/Signing.antt =====
-- Keys, durations and signatures.
use triggerlink.Prelude.{
  ℕ, suc, ◌+◌, ◌≤◌, ◌<◌, ◌≡◌, ◌↔◌, refl, some, none, List, [], ◌∷◌, Text, txt, true, arith,
  IsDistinct,
}
use triggerlink.Prelude.Decimal.{print}
use triggerlink.Value.{nat, neg}
use triggerlink.Execx.{ExecCtx}
use mathlib.Core.List.{Perm}
use mathlib.Core.List.Perm
use triggerlink.Execx.Ordering.{keyed, keyed-Perm}
use triggerlink.Execx.Keys.{keys_of, keys_of-IsDistinct, hash_input_injective}
use triggerlink.Effects.{returned}
use triggerlink.Duration.{ms_to_go_duration, print_thousandths}
use triggerlink.Duration.RoundTrip.{
  read_go_seconds, read-ms_to_go_duration, ms_to_go_duration-returned_iff,
}
use triggerlink.Sign.{sign, verify_signature}
use triggerlink.Sign.Verdicts.{IsTimely, verify-sign_iff, verify_window, verify_one_body}
use triggerlink.Tests.Sample.{host, host-CollisionFree, host-HasHexDigests, host-hmac_injective}

abbrev fresh : ExecCtx
fresh = record { function_id = txt "f"; steps = []; counters = [] }

keys_of-IsDistinct_example : IsDistinct (keys_of host (txt "a" ∷ txt "b" ∷ txt "a" ∷ []) fresh)
keys_of-IsDistinct_example =
    keys_of-IsDistinct host (txt "a" ∷ txt "b" ∷ txt "a" ∷ []) fresh (host-CollisionFree (txt "f"))

keyed-Perm_example :
    Perm
      (keyed host (txt "a" ∷ txt "b" ∷ txt "a" ∷ []) fresh)
      (keyed host (txt "a" ∷ txt "a" ∷ txt "b" ∷ []) fresh)
keyed-Perm_example =
    keyed-Perm host (txt "a" ∷ txt "b" ∷ txt "a" ∷ []) (txt "a" ∷ txt "a" ∷ txt "b" ∷ []) fresh
      (Perm.cons (txt "a") (Perm.swap (txt "a") (txt "b") []))

hash_input_test : (◌≡◌ {A = Text} (txt "a:0") (txt "a:0")) × ◌≡◌ {A = ℕ} 7 7
hash_input_test = hash_input_injective (txt "f") (txt "a:0") (txt "a:0") 7 7 refl

duration_test : ms_to_go_duration host (nat 1500) (txt "f") ≡ returned (txt "1.5s")
unfolding ms_to_go_duration print_thousandths print
duration_test = refl

read-ms_to_go_duration_example :
    (s : Text) × (ms_to_go_duration host (nat 9223372036855) (txt "f") ≡ returned s)
    × (9223372036855 ≤ 9223372036854 → read_go_seconds s ≡ some 9223372036855)
    × (9223372036854 < 9223372036855 → read_go_seconds s ≡ none)
read-ms_to_go_duration_example =
    read-ms_to_go_duration host 9223372036855 (txt "f") (omega arith) (omega arith)

ms_to_go_duration_test :
    ((s : Text) × (ms_to_go_duration host (neg 0) (txt "f") ≡ returned s))
    ↔ ((k : ℕ) × (neg 0 ≡ nat (suc k)))
ms_to_go_duration_test = ms_to_go_duration-returned_iff host (neg 0) (txt "f")

abbrev body : List ℕ
body = 7 ∷ 3 ∷ []

verify-sign_iff_example :
    (verify_signature host
        (txt "k")
        (some (sign host (txt "k") body 1700000000123))
        body
        1700000300000
      ≡ true)
    ↔ IsTimely 1700000300000 1700000000
verify-sign_iff_example =
    verify-sign_iff host (txt "k") body 1700000000123 1700000300000 host-HasHexDigests

abbrev header : Text
header = sign host (txt "k") body 1700000000123

accepted :
    (now : ℕ)
    → IsTimely now 1700000000
    → verify_signature host (txt "k") (some header) body now ≡ true
accepted now h = (verify-sign_iff host (txt "k") body 1700000000123 now host-HasHexDigests).1 h

verify_window_example : ◌≤◌ 1700000300000 (1699999700000 + 600000)
verify_window_example =
    verify_window host (txt "k") header body 1699999700000 1700000300000 host-HasHexDigests
      (accepted 1699999700000 (omega arith)) (accepted 1700000300000 (omega arith))

verify_one_body_example : body ≡ body
verify_one_body_example =
    verify_one_body host (txt "k") header body body 1699999700000 1700000300000 host-HasHexDigests
      (host-hmac_injective (txt "k")) (accepted 1699999700000 (omega arith))
      (accepted 1700000300000 (omega arith))
