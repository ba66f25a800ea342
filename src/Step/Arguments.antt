-- ===== src/Step/Arguments.antt =====
-- Which arguments the step primitives of sdk-ts/src/step.ts accept, where they find no memo.
use triggerlink.Prelude.{
  ℕ, suc, ◌≡◌, ◌≢◌, refl, ◌⊎◌, false≢true, Option, none, some, List, [], ◌∷◌, Bool, true, false,
  zero, if◌then◌else◌, inl, inr, Text, is_empty,
}
use triggerlink.Value.{nan, infinite, nat, neg}
use triggerlink.Execx.{Host, Opcode, OutgoingEvent, interrupt, error}
use triggerlink.Effects.{Outcome, returned, threw, State}
use triggerlink.Duration.{Duration, go, ms, ms_to_go_duration}
use triggerlink.Step.{
  Instant, OneOrMany, events_list, WaitForEventOpts, is_valid_time, time_value, to_iso_string,
  go_timeout, send_list, wait_opcode, map_outcome, interrupt_with, enter, sleep_until, send_event,
  wait_for_event,
}
use triggerlink.Step.Memo.{next_memo}

-- The call ends in an interrupt: the platform gets an opcode.
abbrev pub Interrupts : {A : Type 0} → Outcome A → Type 0
Interrupts r = (op : Opcode) × (r ≡ threw (interrupt op))

-- The outcome is an opcode, or an error of the code's own.
abbrev Decided : Outcome Opcode → Type 0 → Type 0
Decided o P =
    (((op : Opcode) × (o ≡ returned op)) × P)
    ⊎ (((m : Text) × (st : Option Text) × (o ≡ threw (error m st))) × ¬ P)

-- The call ends in an interrupt and the condition holds, or it throws an error and the condition fails.
abbrev pub InterruptsOrFails : {A : Type 0} → Outcome A → Type 0 → Type 0
InterruptsOrFails r P =
    (Interrupts r × P) ⊎ (((m : Text) × (st : Option Text) × (r ≡ threw (error m st))) × ¬ P)

Decided-InterruptsOrFails :
    {A : Type 0} (o : Outcome Opcode) (P : Type 0)
    → Decided o P
    → InterruptsOrFails (interrupt_with {A = A} o) P
unfolding interrupt_with
Decided-InterruptsOrFails (returned op) P (inl (made, p)) = inl ((op, refl), p)
Decided-InterruptsOrFails (returned op) P (inr ((m, st, e), bad)) = absurd (cc)
Decided-InterruptsOrFails (threw x) P (inl ((op, e), p)) = absurd (cc)
Decided-InterruptsOrFails (threw x) P (inr ((m, st, e), bad)) = inr ((m, st, cc), bad)

abbrev pub IsTimeout : Option Duration → Type 0
IsTimeout none = Unit {0}
IsTimeout (some (go s)) = Unit {0}
IsTimeout (some (ms n)) = (k : ℕ) × (n ≡ nat (suc k))

guard-Decided :
    {A : Type 0} (f : A → Opcode) (b : Bool) (x : A) (m : Text) (st : Option Text)
    → Decided (map_outcome f (if b then returned x else threw (error m st))) (b ≡ true)
guard-Decided f true x m st = inl ((f x, refl), refl)
guard-Decided f false x m st = inr ((m, st, refl), false≢true)

module _ (host : Host) (h id : Text) where
  sleep-Decided :
      (at : Instant)
      → Decided
          (map_outcome (Opcode.sleep h id) (to_iso_string host (time_value host at)))
          (is_valid_time (time_value host at) ≡ true)
  unfolding to_iso_string
  sleep-Decided at = guard-Decided (Opcode.sleep h id) (is_valid_time (time_value host at)) _ _ _

  send_list-Decided : (es : List OutgoingEvent) → Decided (send_list host h id es) (es ≢ [])
  unfolding send_list
  send_list-Decided [] = inr ((_, _, refl), λ full. full refl)
  send_list-Decided (e ∷ es) = inl ((_, refl), λ e. cc)

  go_timeout-Decided :
      (f : Option Text → Opcode) (timeout : Option Duration)
      → Decided (map_outcome f (go_timeout host timeout)) (IsTimeout timeout)
  unfolding go_timeout ms_to_go_duration
  go_timeout-Decided f none = inl ((_, refl), tt)
  go_timeout-Decided f (some (go s)) = inl ((_, refl), tt)
  go_timeout-Decided f (some (ms (nat (suc k)))) = inl ((_, refl), (k, refl))
  go_timeout-Decided f (some (ms (nat zero))) = inr ((_, _, refl), λ p. cc p.1)
  go_timeout-Decided f (some (ms nan)) = inr ((_, _, refl), λ p. cc p.1)
  go_timeout-Decided f (some (ms (infinite true))) = inr ((_, _, refl), λ p. cc p.1)
  go_timeout-Decided f (some (ms (infinite false))) = inr ((_, _, refl), λ p. cc p.1)
  go_timeout-Decided f (some (ms (neg k))) = inr ((_, _, refl), λ p. cc p.1)

  named-Decided :
      (event : Text) (o : Outcome Opcode) (m : Text) (st : Option Text) (P : Type 0)
      → Decided o P
      → Decided (if is_empty event then threw (error m st) else o) ((event ≢ []) × P)
  named-Decided [] o m st P d = inr ((m, st, refl), λ q. q.0 refl)
  named-Decided (c ∷ s) o m st P (inl (made, p)) = inl (made, (λ e. cc, p))
  named-Decided (c ∷ s) o m st P (inr (thrown, bad)) = inr (thrown, λ q. bad q.1)

  wait_opcode-Decided :
      (opts : WaitForEventOpts)
      → Decided (wait_opcode host h id opts) ((opts.event ≢ []) × IsTimeout opts.timeout)
  unfolding wait_opcode
  wait_opcode-Decided opts = named-Decided opts.event _ _ _ _ (go_timeout-Decided _ opts.timeout)

-- Where `sleepUntil`, `sendEvent` and `waitForEvent` find no completed memo, each either hands an opcode to
-- the platform, and then the time is valid, there is an event, or the event has a name and the timeout is
-- absent, a text or a positive integer; or it throws an error, and then that is not so.
pub primitives-InterruptsOrFails :
    {W : Type 0} (host : Host) (id : Text) (s : State W) (at : Instant) (events : OneOrMany)
    (opts : WaitForEventOpts)
    → next_memo host id s ≡ none
    → InterruptsOrFails (sleep_until host id at s).0 (is_valid_time (time_value host at) ≡ true)
      × InterruptsOrFails (send_event host id events s).0 (events_list events ≢ [])
      × InterruptsOrFails
          (wait_for_event host id opts s).0
          ((opts.event ≢ []) × IsTimeout opts.timeout)
unfolding sleep_until send_event wait_for_event
primitives-InterruptsOrFails host id s at events opts missing = rw missing (
  Decided-InterruptsOrFails _ _ (sleep-Decided host (enter host id s).0 id at),
  Decided-InterruptsOrFails _ _
      (send_list-Decided host (enter host id s).0 id (events_list events)),
  Decided-InterruptsOrFails _ _ (wait_opcode-Decided host (enter host id s).0 id opts),
)
