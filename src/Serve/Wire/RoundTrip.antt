-- ===== src/Serve/Wire/RoundTrip.antt =====
-- What the platform reads of an opcode that the application sends.
use triggerlink.Prelude.{
  ◌≡◌, refl, ap, ◌∙◌, map, All, ◌⊎◌, inl, inr, Option, none, some, List, [], ◌∷◌, Bool, Text, txt,
  ◌==◌,
}
use triggerlink.Value.{Value, Fields, end, field, undefined, null, bool, num, str, arr, obj, prop}
use triggerlink.Execx.{OpError, OutgoingEvent, Opcode}
use triggerlink.Stringify.{given, stringify, stringify-IsJson}
use triggerlink.Serve.Wire.{
  opcode_in_json, event_in_json, IsSendable, HasJson, error_value, event_value, event_values,
  opcode_value, read_error, read_event, read_events, read_opcode,
}

-- a field is left out, or it stands there
given_cases :
    (v : Value) → (v ≡ undefined) ⊎ ((k : Text) (fs : Fields) → given k v fs ≡ field k v fs)
given_cases undefined = inl refl
given_cases null = inr (λ k fs. refl)
given_cases (bool b) = inr (λ k fs. refl)
given_cases (num n) = inr (λ k fs. refl)
given_cases (str s) = inr (λ k fs. refl)
given_cases (arr vs) = inr (λ k fs. refl)
given_cases (obj gs) = inr (λ k fs. refl)

read-error_value :
    (message : Text) (stack : Option Text) (retryable : Bool)
    → let e : OpError = record { message = message; stack = stack; retryable = retryable } in
      read_error (error_value e) ≡ some e
unfolding prop ◌==◌
read-error_value message none retryable = refl
read-error_value message (some s) retryable = refl

-- an event with a body that is not left out
abbrev event_with : Option Text → Text → Value → Option Text → OutgoingEvent
event_with id name body ts = record { id = id; name = name; body = body; ts = ts }

read-event_value :
    (id : Option Text) (name : Text) (body : Value) (ts : Option Text)
    → read_event (event_value (event_with id name body ts))
      ≡ some (event_with id name (stringify body) ts)
unfolding prop ◌==◌
read-event_value none name body none = elim (given_cases (stringify body)) [
  | inl e ↦ rw e
  | inr there ↦ rw (there (txt "data") end)
]
read-event_value none name body (some t) = elim (given_cases (stringify body)) [
  | inl e ↦ rw e
  | inr there ↦ rw (there (txt "data") (field (txt "ts") (str t) end))
]
read-event_value (some i) name body none = elim (given_cases (stringify body)) [
  | inl e ↦ rw e
  | inr there ↦ rw (there (txt "data") end)
]
read-event_value (some i) name body (some t) = elim (given_cases (stringify body)) [
  | inl e ↦ rw e
  | inr there ↦ rw (there (txt "data") (field (txt "ts") (str t) end))
]

read-event_values :
    (events : List OutgoingEvent)
    → read_events (event_values events) ≡ some (map event_in_json events)
read-event_values [] = refl
read-event_values (e ∷ es) = rw (read-event_value e.id e.name e.body e.ts, read-event_values es)

read-opcode_in_json : (op : Opcode) → read_opcode (opcode_value op) ≡ some (opcode_in_json op)
unfolding read_opcode opcode_value prop ◌==◌
read-opcode_in_json (Opcode.step_complete h id output) = elim (given_cases (stringify output)) [
  | inl e ↦ rw e
  | inr there ↦ rw (there (txt "output") end)
]
read-opcode_in_json (Opcode.step_error h id e) = rw (read-error_value e.message e.stack e.retryable)
read-opcode_in_json (Opcode.run_complete output) = elim (given_cases (stringify output)) [
  | inl e ↦ rw e
  | inr there ↦ rw (there (txt "output") end)
]
read-opcode_in_json (Opcode.run_error e) = rw (read-error_value e.message e.stack e.retryable)
read-opcode_in_json (Opcode.sleep h id until) = refl
read-opcode_in_json (Opcode.send_event h id events) = rw (read-event_values events)
read-opcode_in_json (Opcode.wait_for_event h id event none none) = refl
read-opcode_in_json (Opcode.wait_for_event h id event none (some t)) = refl
read-opcode_in_json (Opcode.wait_for_event h id event (some m) none) = refl
read-opcode_in_json (Opcode.wait_for_event h id event (some m) (some t)) = refl

stringify-IsSendable : (v : Value) → IsSendable v → stringify v ≡ v
unfolding stringify
stringify-IsSendable v (inl e) = rw e refl
stringify-IsSendable v (inr h) = stringify-IsJson v h

events_in_json-All :
    (events : List OutgoingEvent)
    → All (λ e. IsSendable e.body) events
    → map event_in_json events ≡ events
events_in_json-All [] h = refl
events_in_json-All (e ∷ es) (h, hs) = rw (stringify-IsSendable e.body h, events_in_json-All es hs)

opcode_in_json-HasJson : (op : Opcode) → HasJson op → opcode_in_json op ≡ op
opcode_in_json-HasJson (Opcode.step_complete h id output) fine =
    ap (Opcode.step_complete h id) (stringify-IsSendable output fine)
opcode_in_json-HasJson (Opcode.run_complete output) fine =
    ap Opcode.run_complete (stringify-IsSendable output fine)
opcode_in_json-HasJson (Opcode.send_event h id events) fine =
    ap (Opcode.send_event h id) (events_in_json-All events fine)
opcode_in_json-HasJson (Opcode.step_error h id e) fine = refl
opcode_in_json-HasJson (Opcode.run_error e) fine = refl
opcode_in_json-HasJson (Opcode.sleep h id until) fine = refl
opcode_in_json-HasJson (Opcode.wait_for_event h id event match timeout) fine = refl

-- The platform reads every opcode that the application answers with, as it is but for what JSON cannot hold:
-- in an output and in the data of an event, NaN and the infinities are read as null, an undefined entry
-- of an array too, and an undefined field is missing. An opcode without these, whose outputs and data may be
-- undefined as a whole, is read back as it is.
pub read-opcode_value :
    (op : Opcode)
    → (read_opcode (opcode_value op) ≡ some (opcode_in_json op))
      × (HasJson op → read_opcode (opcode_value op) ≡ some op)
read-opcode_value op = (
  read-opcode_in_json op,
  λ fine. read-opcode_in_json op ∙ ap some (opcode_in_json-HasJson op fine),
)
