-- ===== src/Durable/Asking.antt =====
-- A call that comes to a question with no memo (sdk-ts/src/step.ts), and what the platform makes of it.
use triggerlink.Prelude.{
  zero, suc, true, false, ◌≡◌, refl, none, some, Option, List, [], ◌∷◌, Bool-cases, inl, inr, Text,
  txt, lookup, insert,
}
use triggerlink.Value.{Value, Number, add, nan, infinite, nat, neg}
use triggerlink.Execx.{Host, StepState, error, interrupt, next_hash}
use triggerlink.Effects.{Outcome, threw, State}
use triggerlink.Duration.{Duration, go, ms, ms_to_go_duration}
use triggerlink.Step.{
  err_message, enter, memo_of, sleep_until, send_event, wait_for_event, to_iso_string, send_list,
  wait_opcode, go_timeout, interrupt_with, is_valid_time, time_value, one, many, date, OneOrMany,
  Instant,
}
use triggerlink.Step
use triggerlink.Durable.{
  Flow, wait, Question, sleep_at, sleep_for, send_all, wait_on, Query, query_of, opcode_at,
  handler_of, ask,
}
use triggerlink.Durable.Replay.{Counters, key, bump, at}

-- the message of the error that a question throws where it asks for nothing
abbrev pub complaint : {W : Type 0} → Host → Text → Question W → W → Text
complaint host id q w = elim (ask host id q (at host [] [] [] w)).0 [
  | Outcome.returned v ↦ []
  | Outcome.threw e ↦ err_message e
]

-- How a call ends there: with the query as an opcode, or with an error of the message given.
abbrev pub Asked :
    {W : Type 0}
    → Text
    → Text
    → State W
    → (message : Text) → Option Query
    → Outcome Value × State W
    → Type 0
Asked h id s message none r = (st : Option Text) × (r ≡ (threw (error message st), s))
Asked h id s message (some query) r = r ≡ (threw (interrupt (opcode_at h id query)), s)

module _ {W : Type 0} (host : Host) (f : Text) where
  complaint-sleep_at :
      (id : Text) (t : Instant) (w : W)
      → is_valid_time (time_value host t) ≡ false
      → complaint host id (sleep_at t) w ≡ txt "Invalid time value"
  unfolding sleep_until to_iso_string interrupt_with enter next_hash memo_of lookup err_message
  complaint-sleep_at id t w invalid = rw (complaint, invalid) refl

  sleep_miss :
      (id : Text) (t : Instant) (rest : Value → Flow W) (steps : List (Text × StepState))
      (c : Counters) (w : W)
      → lookup (key host f id c) steps ≡ none
      → Asked
          (key host f id c)
          id
          (at host f steps (bump host f id c) w)
          (complaint host id (sleep_at t) w)
          (query_of host (sleep_at t) w)
          (handler_of host (wait id (sleep_at t) rest) (at host f steps c w))
  unfolding handler_of sleep_until to_iso_string interrupt_with enter next_hash memo_of lookup
      insert err_message
  sleep_miss id t rest steps c w fresh = elim (Bool-cases (is_valid_time (time_value host t))) [
    | inl valid ↦ rw (fresh, valid)
    | inr invalid ↦ rw (fresh, invalid, complaint-sleep_at id t w invalid) (_, refl)
  ]

  delay_miss :
      (id : Text) (clock : W → Number) (dur_ms : Number) (rest : Value → Flow W)
      (steps : List (Text × StepState)) (c : Counters) (w : W)
      → lookup (key host f id c) steps ≡ none
      → Asked
          (key host f id c)
          id
          (at host f steps (bump host f id c) w)
          (complaint host id (sleep_for clock dur_ms) w)
          (query_of host (sleep_for clock dur_ms) w)
          (handler_of host (wait id (sleep_for clock dur_ms) rest) (at host f steps c w))
  unfolding handler_of Step.sleep
  delay_miss id clock dur_ms rest steps c w fresh =
      sleep_miss id (date (add (clock w) dur_ms)) rest steps c w fresh

  send_miss :
      (id : Text) (es : OneOrMany) (rest : Value → Flow W) (steps : List (Text × StepState))
      (c : Counters) (w : W)
      → lookup (key host f id c) steps ≡ none
      → Asked
          (key host f id c)
          id
          (at host f steps (bump host f id c) w)
          (complaint host id (send_all es) w)
          (query_of host (send_all es) w)
          (handler_of host (wait id (send_all es) rest) (at host f steps c w))
  unfolding handler_of send_event send_list interrupt_with enter next_hash memo_of lookup insert
      err_message
  send_miss id (one e) rest steps c w fresh = rw fresh
  send_miss id (many []) rest steps c w fresh = rw fresh (_, refl)
  send_miss id (many (e ∷ es)) rest steps c w fresh = rw fresh

  wait_miss :
      (id : Text) (event : Text) (match : Option Text) (timeout : Option Duration)
      (rest : Value → Flow W) (steps : List (Text × StepState)) (c : Counters) (w : W)
      → lookup (key host f id c) steps ≡ none
      → let q : Question W = wait_on (record { event = event; match = match; timeout = timeout }) in
        Asked
          (key host f id c)
          id
          (at host f steps (bump host f id c) w)
          (complaint host id q w)
          (query_of host q w)
          (handler_of host (wait id q rest) (at host f steps c w))
  unfolding handler_of wait_for_event wait_opcode go_timeout ms_to_go_duration interrupt_with enter
      next_hash memo_of lookup insert err_message
  wait_miss id [] match timeout rest steps c w fresh = rw fresh (_, refl)
  wait_miss id (x ∷ event) match none rest steps c w fresh = rw fresh
  wait_miss id (x ∷ event) match (some (go s)) rest steps c w fresh = rw fresh
  wait_miss id (x ∷ event) match (some (ms (nat (suc k)))) rest steps c w fresh = rw fresh
  wait_miss id (x ∷ event) match (some (ms (nat zero))) rest steps c w fresh = rw fresh (_, refl)
  wait_miss id (x ∷ event) match (some (ms nan)) rest steps c w fresh = rw fresh (_, refl)
  wait_miss id (x ∷ event) match (some (ms (infinite true))) rest steps c w fresh =
      rw fresh (_, refl)
  wait_miss id (x ∷ event) match (some (ms (infinite false))) rest steps c w fresh =
      rw fresh (_, refl)
  wait_miss id (x ∷ event) match (some (ms (neg k))) rest steps c w fresh = rw fresh (_, refl)

  -- At a question with no memo, a call ends with the query, or with an error where there is none.
  pub question_miss :
      (id : Text) (q : Question W) (rest : Value → Flow W) (steps : List (Text × StepState))
      (c : Counters) (w : W)
      → lookup (key host f id c) steps ≡ none
      → Asked
          (key host f id c)
          id
          (at host f steps (bump host f id c) w)
          (complaint host id q w)
          (query_of host q w)
          (handler_of host (wait id q rest) (at host f steps c w))
  question_miss id (sleep_at t) rest steps c w fresh = sleep_miss id t rest steps c w fresh
  question_miss id (sleep_for clock dur_ms) rest steps c w fresh =
      delay_miss id clock dur_ms rest steps c w fresh
  question_miss id (send_all es) rest steps c w fresh = send_miss id es rest steps c w fresh
  question_miss id (wait_on opts) rest steps c w fresh =
      wait_miss id opts.event opts.match opts.timeout rest steps c w fresh
