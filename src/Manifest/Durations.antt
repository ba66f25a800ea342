-- ===== src/Manifest/Durations.antt =====
-- Which durations GET of sdk-ts/src/serve.ts can print.
use triggerlink.Prelude.{
  ℕ, zero, suc, ◌≡◌, ◌↔◌, refl, Option, none, some, List, [], ◌∷◌, Text, All, values,
}
use triggerlink.Value.{nan, infinite, nat, neg}
use triggerlink.Execx.{Host}
use triggerlink.Effects.{Outcome, returned, threw}
use triggerlink.Duration.{Duration, go, ms, go_duration}
use triggerlink.Duration.RoundTrip.{ms_to_go_duration-returned_iff}
use triggerlink.Function.{DebounceOpts, ThrottleOpts, BatchOpts, TriggerFunction}
use triggerlink.Registry.{Registry}
use triggerlink.Manifest.{
  Manifest, given_duration, debounce_entry, throttle_entry, batch_entry, function_entry,
  function_entries, manifest_of, ◌>>=◌,
}

abbrev Returns : {A : Type 0} → Outcome A → Type 0
Returns {A} o = (a : A) × (o ≡ returned a)

-- A chain returns if its first part does, and the rest does whatever the first part returns.
Returns-bind :
    {A B : Type 0} (Q : Type 0) (m : Outcome A) (k : A → Outcome B)
    → ((a : A) → Returns (k a) ↔ Q)
    → Returns (m >>= k) ↔ (Returns m × Q)
Returns-bind Q (returned a) k rest = (λ r. ((a, refl), (rest a).0 r), λ (_, q). (rest a).1 q)
Returns-bind Q (threw e) k rest = (λ r. cc r.1, λ (r, _). cc r.1)

Returns-last :
    {A B : Type 0} (m : Outcome A) (f : A → B) → Returns (m >>= λ a. returned (f a)) ↔ Returns m
Returns-last (returned a) f = (λ r. (a, refl), λ r. (f a, refl))
Returns-last (threw e) f = (λ r. cc r.1, λ r. cc r.1)

-- A duration that can be printed: a text, or a positive integer.
abbrev pub IsPrintable : Duration → Type 0
IsPrintable (go s) = Unit
IsPrintable (ms n) = (k : ℕ) × (n ≡ nat (suc k))

-- An option that is left out where it is not set, NaN or 0.
abbrev pub IsPrintableOption : Option Duration → Type 0
IsPrintableOption none = Unit
IsPrintableOption (some (ms nan)) = Unit
IsPrintableOption (some (ms (nat zero))) = Unit
IsPrintableOption (some d) = IsPrintable d

abbrev pub IsPrintableDebounce : Option DebounceOpts → Type 0
IsPrintableDebounce none = Unit
IsPrintableDebounce (some d) = IsPrintable d.period × IsPrintableOption d.timeout

abbrev pub IsPrintableThrottle : Option ThrottleOpts → Type 0
IsPrintableThrottle none = Unit
IsPrintableThrottle (some t) = IsPrintable t.period

abbrev pub IsPrintableBatch : Option BatchOpts → Type 0
IsPrintableBatch none = Unit
IsPrintableBatch (some b) = IsPrintable b.timeout

abbrev pub IsReportable : {W : Type 0} → TriggerFunction W → Type 0
IsReportable f =
    IsPrintableOption f.opts.timeout
    × (IsPrintableDebounce f.opts.debounce
        × (IsPrintableThrottle f.opts.throttle × IsPrintableBatch f.opts.batch))

-- a two-sided statement under a map on one side
iff_trans : {A B C : Type 0} → A ↔ B → B ↔ C → A ↔ C
iff_trans p q = (λ a. q.0 (p.0 a), λ c. p.1 (q.1 c))

×_iff : {A B C D : Type 0} → A ↔ B → C ↔ D → (A × C) ↔ (B × D)
×_iff p q = (λ (a, c). (p.0 a, q.0 c), λ (b, d). (p.1 b, q.1 d))

always : {A : Type 0} (a : A) → Returns (returned a) ↔ Unit {0}
always a = (λ r. tt, λ u. (a, refl))

module _ (host : Host) where
  go_duration_iff : (d : Duration) (what : Text) → Returns (go_duration host d what) ↔ IsPrintable d
  unfolding go_duration
  go_duration_iff (go s) what = always s
  go_duration_iff (ms n) what = ms_to_go_duration-returned_iff host n what

  given_duration_iff : (o : Option Duration) → Returns (given_duration host o) ↔ IsPrintableOption o
  unfolding given_duration
  given_duration_iff none = always none
  given_duration_iff (some (go [])) = always none
  given_duration_iff (some (go (c ∷ s))) =
      iff_trans (Returns-last _ some) (go_duration_iff (go (c ∷ s)) _)
  given_duration_iff (some (ms nan)) = always none
  given_duration_iff (some (ms (nat zero))) = always none
  given_duration_iff (some (ms (nat (suc n)))) =
      iff_trans (Returns-last _ some) (go_duration_iff (ms (nat (suc n))) _)
  given_duration_iff (some (ms (neg n))) =
      iff_trans (Returns-last _ some) (go_duration_iff (ms (neg n)) _)
  given_duration_iff (some (ms (infinite b))) =
      iff_trans (Returns-last _ some) (go_duration_iff (ms (infinite b)) _)

  debounce_entry_iff :
      (o : Option DebounceOpts) → Returns (debounce_entry host o) ↔ IsPrintableDebounce o
  unfolding debounce_entry
  debounce_entry_iff none = always none
  debounce_entry_iff (some d) =
      iff_trans
        (Returns-bind (IsPrintableOption d.timeout) (go_duration host d.period _) _ (λ period.
          iff_trans (Returns-last (given_duration host d.timeout) _)
            (given_duration_iff d.timeout)))
        (×_iff (go_duration_iff d.period _) (λ x. x, λ x. x))

  throttle_entry_iff :
      (o : Option ThrottleOpts) → Returns (throttle_entry host o) ↔ IsPrintableThrottle o
  unfolding throttle_entry
  throttle_entry_iff none = always none
  throttle_entry_iff (some t) =
      iff_trans (Returns-last (go_duration host t.period _) _) (go_duration_iff t.period _)

  batch_entry_iff : (o : Option BatchOpts) → Returns (batch_entry host o) ↔ IsPrintableBatch o
  unfolding batch_entry
  batch_entry_iff none = always none
  batch_entry_iff (some b) =
      iff_trans (Returns-last (go_duration host b.timeout _) _) (go_duration_iff b.timeout _)

  function_entry_iff :
      {W : Type 0} (f : TriggerFunction W) → Returns (function_entry host f) ↔ IsReportable f
  unfolding function_entry
  function_entry_iff f =
      iff_trans
        (Returns-bind _ (given_duration host f.opts.timeout) _ (λ timeout.
          Returns-bind _ (debounce_entry host f.opts.debounce) _ (λ debounce.
            Returns-bind _ (throttle_entry host f.opts.throttle) _
              (λ throttle. Returns-last (batch_entry host f.opts.batch) _))))
        (×_iff (given_duration_iff f.opts.timeout) (
          ×_iff (debounce_entry_iff f.opts.debounce)
            (×_iff (throttle_entry_iff f.opts.throttle) (batch_entry_iff f.opts.batch))))

  function_entries_iff :
      {W : Type 0} (fs : List (TriggerFunction W))
      → Returns (function_entries host fs) ↔ All IsReportable fs
  unfolding function_entries
  function_entries_iff [] = always []
  function_entries_iff (f ∷ fs) =
      iff_trans
        (Returns-bind _ (function_entry host f) _ (λ e. Returns-last (function_entries host fs) _))
        (×_iff (function_entry_iff f) (function_entries_iff fs))

-- The manifest is made exactly if, for every function of the registry, the periods and timeouts that
-- are set are texts or positive integers. A timeout of NaN or 0 counts as not set, except a batch's; a
-- period or a batch's timeout of NaN or 0, and any negative or infinite duration, makes GET throw.
pub manifest_of-returned_iff :
    {W : Type 0} (host : Host) (app_id : Text) (reg : Registry W)
    → ((m : Manifest) × (manifest_of host app_id reg ≡ returned m)) ↔ All IsReportable (values reg)
unfolding manifest_of
manifest_of-returned_iff host app_id reg =
    iff_trans (Returns-last (function_entries host (values reg)) _)
      (function_entries_iff host (values reg))
