-- ===== src/Serve/Wire.antt =====
-- Opcodes as they leave the application: the types of sdk-ts/src/execx.ts, and the last line of POST in
-- sdk-ts/src/serve.ts; with a reader that follows docs/protocol.md (section 5).
pub mod RoundTrip
use triggerlink.Prelude.{
  ◌≡◌, ◌⊎◌, All, map, Option, none, some, List, [], ◌∷◌, Bool, Text, txt, ◌==◌, if◌then◌else◌,
}
use triggerlink.Value.{
  Value, Values, nil, cons, Fields, end, field, undefined, bool, str, arr, obj, prop,
}
use triggerlink.Execx.{OpError, OutgoingEvent, Opcode}
use triggerlink.Execx
use triggerlink.Stringify.{given, stringify, IsJson}

abbrev pub text_value : Option Text → Value
text_value none = undefined
text_value (some s) = str s

abbrev pub error_value : OpError → Value
error_value e = obj (
    field (txt "message") (str e.message)
      (given (txt "stack") (text_value e.stack) (field (txt "retryable") (bool e.retryable) end)))

abbrev pub event_value : Execx.OutgoingEvent → Value
event_value e = obj (
    given (txt "id") (text_value e.id) (
      field (txt "name") (str e.name)
        (given (txt "data") (stringify e.body) (given (txt "ts") (text_value e.ts) end))))

abbrev pub event_values : List OutgoingEvent → Values
event_values [] = nil
event_values (e ∷ es) = cons (event_value e) (event_values es)

abbrev step_value : (op h id : Text) → Fields → Value
step_value op h id fs =
    obj (field (txt "op") (str op) (field (txt "id") (str h) (field (txt "step_id") (str id) fs)))

-- what `json(opcode)` prints
unfoldable pub opcode_value : Opcode → Value
opcode_value (Opcode.step_complete h id output) =
    step_value (txt "StepComplete") h id (given (txt "output") (stringify output) end)
opcode_value (Opcode.step_error h id e) =
    step_value (txt "StepError") h id (field (txt "error") (error_value e) end)
opcode_value (Opcode.run_complete output) =
    obj (field (txt "op") (str (txt "RunComplete")) (given (txt "output") (stringify output) end))
opcode_value (Opcode.run_error e) =
    obj (field (txt "op") (str (txt "RunError")) (field (txt "error") (error_value e) end))
opcode_value (Opcode.sleep h id until) =
    step_value (txt "Sleep") h id (field (txt "until") (str until) end)
opcode_value (Opcode.send_event h id events) =
    step_value (txt "SendEvent") h id (field (txt "events") (arr (event_values events)) end)
opcode_value (Opcode.wait_for_event h id event match timeout) =
    step_value (txt "WaitForEvent") h id (
      field (txt "event") (str event)
        (given (txt "match") (text_value match) (given (txt "timeout") (text_value timeout) end)))

-- What an opcode is after its way through JSON: the values of the application as JSON.stringify leaves
-- them.
abbrev pub event_in_json : OutgoingEvent → OutgoingEvent
event_in_json e = record { id = e.id; name = e.name; body = stringify e.body; ts = e.ts }

abbrev pub opcode_in_json : Opcode → Opcode
opcode_in_json (Opcode.step_complete h id output) = Opcode.step_complete h id (stringify output)
opcode_in_json (Opcode.run_complete output) = Opcode.run_complete (stringify output)
opcode_in_json (Opcode.send_event h id events) = Opcode.send_event h id (map event_in_json events)
opcode_in_json op = op

-- A value of an opcode that JSON holds, or that is left out.
abbrev pub IsSendable : Value → Type 0
IsSendable v = (v ≡ undefined) ⊎ IsJson v

abbrev pub HasJson : Opcode → Type 0
HasJson (Opcode.step_complete h id output) = IsSendable output
HasJson (Opcode.run_complete output) = IsSendable output
HasJson (Opcode.send_event h id events) = All (λ e. IsSendable e.body) events
HasJson op = Unit

-- The reader: a field that is required, and one that may be left out.
abbrev text_in : Value → Option Text
text_in (str s) = some s
text_in v = none

abbrev pub text_at : Text → Value → Option Text
text_at k v = text_in (prop k v)

abbrev with_text {ℓ} : {A : Type ℓ} → Option Text → (Text → Option A) → Option A
with_text none k = none
with_text (some s) k = k s

abbrev bool_in : Value → Option Bool
bool_in (bool b) = some b
bool_in v = none

abbrev error_with : Option Text → Option Bool → Option Text → Option OpError
error_with (some message) (some retryable) stack =
    some (record { message = message; stack = stack; retryable = retryable })
error_with message retryable stack = none

abbrev pub read_error : Value → Option OpError
read_error v =
    error_with (text_at (txt "message") v) (bool_in (prop (txt "retryable") v))
      (text_at (txt "stack") v)

abbrev pub read_event : Value → Option OutgoingEvent
read_event v = with_text (text_at (txt "name") v) (λ name. some (record {
  id = text_at (txt "id") v;
  name = name;
  body = prop (txt "data") v;
  ts = text_at (txt "ts") v;
}))

abbrev and_then {ℓ} : {A : Type ℓ} → Option A → Option (List A) → Option (List A)
and_then (some a) (some rest) = some (a ∷ rest)
and_then a rest = none

abbrev pub read_events : Values → Option (List OutgoingEvent)
read_events nil = some []
read_events (cons v vs) = and_then (read_event v) (read_events vs)

abbrev events_in : Value → Option (List OutgoingEvent)
events_in (arr vs) = read_events vs
events_in v = none

abbrev step_opcode : Value → (Text → Text → Option Opcode) → Option Opcode
step_opcode v k =
    with_text (text_at (txt "id") v) (λ h. with_text (text_at (txt "step_id") v) (λ id. k h id))

abbrev map_option : {A : Type 0} → (A → Opcode) → Option A → Option Opcode
map_option f none = none
map_option f (some a) = some (f a)

abbrev read_as : Text → Value → Option Opcode
read_as op v =
    if op == txt "StepComplete"
    then step_opcode v (λ h id. some (Opcode.step_complete h id (prop (txt "output") v)))
    else if op == txt "StepError"
    then step_opcode v
        (λ h id. map_option (Opcode.step_error h id) (read_error (prop (txt "error") v)))
    else if op == txt "RunComplete"
    then some (Opcode.run_complete (prop (txt "output") v))
    else if op == txt "RunError"
    then map_option Opcode.run_error (read_error (prop (txt "error") v))
    else if op == txt "Sleep"
    then step_opcode v (λ h id. map_option (Opcode.sleep h id) (text_at (txt "until") v))
    else if op == txt "SendEvent"
    then step_opcode v
        (λ h id. map_option (Opcode.send_event h id) (events_in (prop (txt "events") v)))
    else if op == txt "WaitForEvent"
    then step_opcode v (λ h id.
      map_option
        (λ event.
          Opcode.wait_for_event h id event (text_at (txt "match") v) (text_at (txt "timeout") v))
        (text_at (txt "event") v))
    else none

unfoldable pub read_opcode : Value → Option Opcode
read_opcode v = with_text (text_at (txt "op") v) (λ op. read_as op v)
