-- ===== src/Step/Memo.antt =====
-- What the step primitives do with a memo and without one.
use triggerlink.Prelude.{◌≡◌, ap, ◌⊎◌, inl, inr, refl, Option, none, some, Option-cases, Text}
use triggerlink.Value.{Number, Value}
use triggerlink.Execx.{Host, Opcode, Thrown, interrupt, error, other}
use triggerlink.Effects.{Outcome, returned, threw, State, Exec}
use triggerlink.Step.{
  enter, Instant, OneOrMany, WaitForEventOpts, run, sleep_until, sleep, send_event, wait_for_event,
  event_or_null, finish, interrupt_with, answer,
}

-- The completed output of the memo that the next call with a step id finds.
abbrev pub next_memo : {W : Type 0} → Host → Text → State W → Option Value
next_memo host id s = (enter host id s).1

-- The state after a call that runs nothing of the application: one counter has moved on.
abbrev pub entered : {W : Type 0} → Host → Text → State W → State W
entered host id s = (enter host id s).2

module _ (host : Host) {W : Type 0} where
  finish_interrupts :
      (h id : Text) (r : Outcome Value × State W)
      → (op : Opcode) × (finish host h id r ≡ (threw (interrupt op), r.1))
  unfolding finish
  finish_interrupts h id (returned v, s) = (_, refl)
  finish_interrupts h id (threw (interrupt op), s) = (op, refl)
  finish_interrupts h id (threw (error m st), s) = (_, refl)
  finish_interrupts h id (threw (other m), s) = (_, refl)

  -- Whatever the application's function does, `run` returns or interrupts, and throws nothing else.
  -- With a completed memo it returns the memo's output and does not call the function; without one
  -- it calls the function once, from the state with the counter moved on, and never returns.
  pub run_cases :
      (id : Text) (fn : Exec W Value) (s : State W)
      → ((v : Value) × (next_memo host id s ≡ some v)
          × (run host id fn s ≡ (returned v, entered host id s)))
        ⊎ ((op : Opcode) × (next_memo host id s ≡ none)
            × (run host id fn s ≡ (threw (interrupt op), (fn (entered host id s)).1)))
  unfolding run
  run_cases id fn s = elim (Option-cases (next_memo host id s)) [
    | inl missing ↦
        let (op, how) = finish_interrupts (enter host id s).0 id (fn (entered host id s)) in
        inr (op, missing, rw (missing, run) how)
    | inr (v, found) ↦ inl (v, found, rw (found, run))
  ]

interrupt_with_throws :
    {A : Type 0} (op : Outcome Opcode) → (e : Thrown) × (interrupt_with {A = A} op ≡ threw e)
unfolding interrupt_with
interrupt_with_throws (returned op) = (_, refl)
interrupt_with_throws (threw e) = (e, refl)

-- What a primitive does that calls nothing of the application: with a completed memo it returns what
-- `f` makes of the memo's output, and without one it throws. Either way the world is left alone, and
-- the one counter has moved on.
abbrev pub Suspends : {W A : Type 0} → (Value → A) → Host → Text → Exec W A → State W → Type 0
Suspends f host id p s =
    ((v : Value) × (next_memo host id s ≡ some v) × (p s ≡ (returned (f v), entered host id s)))
    ⊎ ((e : Thrown) × (next_memo host id s ≡ none) × (p s ≡ (threw e, entered host id s)))

answer-Suspends :
    {W A : Type 0} (f : Value → A) (host : Host) (id : Text) (op : Outcome Opcode) (s : State W)
    → Suspends f host id (λ t. answer f op (next_memo host id t) (entered host id t)) s
answer-Suspends {W} {A} f host id op s = elim (Option-cases (next_memo host id s)) [
  | inl missing ↦
      let (e, throws) = interrupt_with_throws {A = A} op in
      inr (e, missing, rw missing (ap (λ r. (r, entered host id s)) throws))
  | inr (v, found) ↦ inl (v, found, rw found)
]

-- `sleepUntil`, `sleep`, `sendEvent` and `waitForEvent` return exactly where a completed memo is found,
-- and throw otherwise, whatever their arguments are; they leave the world alone.
pub primitives-Suspend :
    {W : Type 0} (host : Host) (id : Text) (s : State W) (at : Instant) (now dur_ms : Number)
    (events : OneOrMany) (opts : WaitForEventOpts)
    → Suspends (λ v. tt) host id (sleep_until host id at) s
      × Suspends (λ v. tt) host id (sleep host now id dur_ms) s
      × Suspends (λ v. v) host id (send_event host id events) s
      × Suspends event_or_null host id (wait_for_event host id opts) s
unfolding sleep_until sleep send_event wait_for_event
primitives-Suspend host id s at now dur_ms events opts = (
  answer-Suspends (λ v. tt) host id _ s,
  answer-Suspends (λ v. tt) host id _ s,
  answer-Suspends (λ v. v) host id _ s,
  answer-Suspends event_or_null host id _ s,
)
