-- ===== src/Serve/Reporting.antt =====
-- GET of sdk-ts/src/serve.ts: to whom the functions are reported.
use triggerlink.Prelude.{
  ℕ, ◌≡◌, ◌≢◌, arith, ◌↔◌, refl, sym, ap, ◌∙◌, [], true, false, Bool-cases, false≢true, inl, inr,
  All, values, txt,
}
use triggerlink.Execx.{Host}
use triggerlink.Effects.{Outcome, returned, threw}
use triggerlink.Sign.{verify_signature}
use triggerlink.Registry.{Registry}
use triggerlink.Manifest.{Manifest, manifest_of}
use triggerlink.Manifest.Durations.{IsReportable, manifest_of-returned_iff}
use triggerlink.Client.{Client}
use triggerlink.Serve.{Request, Response, manifest, refuse, report, get}

abbrev pub answer_with : Manifest → Response
answer_with m = record { status = 200; body = manifest m }

report_iff :
    (o : Outcome Manifest)
    → ((m : Manifest) × (report o ≡ returned (answer_with m))) ↔ ((m : Manifest) × (o ≡ returned m))
report_iff (returned m) = (λ r. (m, refl), λ r. (m, refl))
report_iff (threw e) = (λ r. cc r.1, λ r. cc r.1)

abbrev status_of : Outcome Response → ℕ
status_of (returned r) = r.status
status_of (threw e) = 0

unauthorized-ne :
    (m : Manifest) → returned (refuse 401 (txt "unauthorized")) ≢ returned (answer_with m)
unauthorized-ne m e = absurd (omega (arith, ap status_of e))

-- GET answers with a manifest exactly if the signature holds for the empty body and the durations of all
-- functions can be printed, and a request whose signature does not hold gets the status 401.
pub get-manifest_iff :
    {W : Type 0} (host : Host) (client : Client) (reg : Registry W) (req : Request) (now : ℕ)
    → (((m : Manifest) × (get host client reg req now ≡ returned (answer_with m))) ↔ (
        (verify_signature host client.signing_key req.signature [] now ≡ true)
        × All IsReportable (values reg)))
      × ((verify_signature host client.signing_key req.signature [] now ≡ false)
          → get host client reg req now ≡ returned (refuse 401 (txt "unauthorized")))
unfolding get
get-manifest_iff host client reg req now =
    let (to, from) = manifest_of-returned_iff host client.id reg in
    (
      elim (Bool-cases (verify_signature host client.signing_key req.signature [] now)) [
        | inl verified ↦ (
          λ r. (verified, to ((report_iff _).0 (r.0, rw verified at r.1))),
          λ (ok, all).
              let (m, made) = (report_iff (manifest_of host client.id reg)).1 (from all) in
              (m, rw verified made),
        )
        | inr forged ↦ (
          λ r. absurd (unauthorized-ne r.0 (rw forged at r.1)),
          λ (ok, all). absurd (false≢true (sym forged ∙ ok)),
        )
      ],
      λ forged. rw forged,
    )
