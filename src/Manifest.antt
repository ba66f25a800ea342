-- ===== src/Manifest.antt =====
-- The manifest that GET of sdk-ts/src/serve.ts reports: one entry for each function of the registry,
-- with the options that are set.
pub mod Entries
pub mod Failures
pub mod Handling
pub mod Durations
use triggerlink.Prelude.{
  zero, Option, none, some, List, [], ◌∷◌, Bool, true, false, Text, txt, is_empty, if◌then◌else◌,
  map, values,
}
use triggerlink.Prelude.Decimal.{print}
use triggerlink.Value.{Number, nan, nat}
use triggerlink.Execx.{Host}
use triggerlink.Effects.{Outcome, returned, threw}
use triggerlink.Duration.{Duration, go, ms, go_duration}
use triggerlink.Function.{
  CancelOnRule, DebounceOpts, ThrottleOpts, BatchOpts, FunctionOpts, TriggerFunction, given,
}
use triggerlink.Registry.{Registry}

pub record DebounceEntry : Type 0 where
  pub period : Text
  pub key : Option Text
  pub timeout : Option Text

pub record ThrottleEntry : Type 0 where
  pub limit : Number
  pub period : Text
  pub key : Option Text

pub record BatchEntry : Type 0 where
  pub max_size : Number
  pub timeout : Text
  pub key : Option Text

-- `none` where the key is left out of the entry.
pub record FunctionEntry : Type 0 where
  pub id : Text
  pub event : Option Text
  pub match : Option Text
  pub cron : Option Text
  pub retries : Number
  pub cancel_on : Option (List CancelOnRule)
  pub timeout : Option Text
  pub debounce : Option DebounceEntry
  pub throttle : Option ThrottleEntry
  pub batch : Option BatchEntry

pub record Manifest : Type 0 where
  pub sdk : Text
  pub app_id : Text
  pub functions : List FunctionEntry

abbrev pub sdk_version : Text
sdk_version = txt "triggerlink-ts/0.4.6"

infixl 5 ◌>>=◌
abbrev pub ◌>>=◌ : {A B : Type 0} → Outcome A → (A → Outcome B) → Outcome B
returned a >>= k = k a
threw e >>= k = threw e

-- `cancelOn?.length`
abbrev given_list : Option (List CancelOnRule) → Option (List CancelOnRule)
given_list none = none
given_list (some []) = none
given_list (some (rule ∷ rules)) = some (rule ∷ rules)

-- an option that is a duration, where it is truthy
pub given_duration : Host → Option Duration → Outcome (Option Text)
given_duration host none = returned none
given_duration host (some (go [])) = returned none
given_duration host (some (ms nan)) = returned none
given_duration host (some (ms (nat zero))) = returned none
given_duration host (some d) = do s ← go_duration host d (txt "createFunction"); returned (some s)

module _ (host : Host) where
  pub debounce_entry : Option DebounceOpts → Outcome (Option DebounceEntry)
  unfolding given_duration
  debounce_entry none = returned none
  debounce_entry (some d) = do
    period ← go_duration host d.period (txt "createFunction")
    timeout ← given_duration host d.timeout
    returned (some (record { period = period; key = given d.key; timeout = timeout }))

  pub throttle_entry : Option ThrottleOpts → Outcome (Option ThrottleEntry)
  throttle_entry none = returned none
  throttle_entry (some t) = do
    period ← go_duration host t.period (txt "createFunction")
    returned (some (record { limit = t.limit; period = period; key = given t.key }))

  pub batch_entry : Option BatchOpts → Outcome (Option BatchEntry)
  batch_entry none = returned none
  batch_entry (some b) = do
    timeout ← go_duration host b.timeout (txt "createFunction")
    returned (some (record { max_size = b.max_size; timeout = timeout; key = given b.key }))

  module _ {W : Type 0} where
    unfoldable pub function_entry : TriggerFunction W → Outcome FunctionEntry
    unfolding given_duration debounce_entry throttle_entry batch_entry
    function_entry f = do
      timeout ← given_duration host f.opts.timeout
      debounce ← debounce_entry f.opts.debounce
      throttle ← throttle_entry f.opts.throttle
      batch ← batch_entry f.opts.batch
      returned (record {
        id = f.opts.id;
        event = f.opts.event;
        match = given f.opts.match;
        cron = given f.opts.cron;
        retries = f.retries;
        cancel_on = given_list f.opts.cancel_on;
        timeout = timeout;
        debounce = debounce;
        throttle = throttle;
        batch = batch;
      })

    unfoldable pub function_entries : List (TriggerFunction W) → Outcome (List FunctionEntry)
    function_entries [] = returned []
    function_entries (f ∷ fs) = do
      entry ← function_entry f
      entries ← function_entries fs
      returned (entry ∷ entries)

    unfoldable pub manifest_of : Text → Registry W → Outcome Manifest
    manifest_of app_id reg = do
      entries ← function_entries (values reg)
      returned (record { sdk = sdk_version; app_id = app_id; functions = entries })
