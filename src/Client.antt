-- ===== src/Client.antt =====
-- sdk-ts/src/client.ts: the client of an application, `send`, and the retries of `register`.
pub mod BaseUrl
pub mod Sending
pub mod Registering
use triggerlink.Prelude.{
  ℕ, zero, suc, ◌+◌, Option, none, some, List, [], ◌∷◌, ◌++◌, Bool, true, false, not, ◌&&◌, ◌||◌,
  Text, txt, is_empty, nat_eq, ltb, leb, or_else, if◌then◌else◌,
}
use triggerlink.Prelude.Decimal.{print}
use triggerlink.Value.{Number, nan, infinite, nat, neg, Value}
use triggerlink.Execx.{Host, Thrown}
use triggerlink.Effects.{Outcome, returned, threw, new_error}
use triggerlink.Step.{err_message}

pub record ClientOptions : Type 0 where
  pub id : Text
  pub signing_key : Text
  pub event_key : Option Text
  pub base_url : Option Text

-- A client that has been created, with the base URL that `send` and `register` share.
pub record Client : Type 0 where
  pub id : Text
  pub signing_key : Text
  pub event_key : Option Text
  pub base_url : Text

pub record SendEventInput : Type 0 where
  pub id : Option Text
  pub name : Text
  pub «data» : Option Value
  pub ts : Option Text

pub data OneOrMany : Type 0 where
  one : SendEventInput → OneOrMany
  many : List SendEventInput → OneOrMany

-- What is posted, before JSON.stringify.
pub data Body : Type 0 where
  events : OneOrMany → Body
  app : (url : Text) → Body

pub record Request : Type 0 where
  pub url : Text
  pub authorization : Text
  pub body : Body

-- A response of the platform; reading its body as a text or as JSON may fail.
pub record Response : Type 0 where
  pub status : ℕ
  pub text : Outcome Text
  pub json : Outcome Value

-- `fetch` on a world: a response, or a throw
abbrev pub Fetch : Type 0 → Type 0
Fetch W = Request → W → Outcome Response × W

-- `s.replace(/\/+$/, "")`
unfoldable pub strip_slashes : Text → Text
strip_slashes [] = []
strip_slashes (c ∷ s) =
    let rest = strip_slashes s in if nat_eq c b'/' && is_empty rest then [] else c ∷ rest

-- an option that is a text, where it is truthy
abbrev pub nonempty : Option Text → Option Text
nonempty none = none
nonempty (some []) = none
nonempty (some (c ∷ s)) = some (c ∷ s)

-- `resp.ok`
abbrev pub is_ok : Response → Bool
is_ok resp = leb 200 resp.status && leb resp.status 299

abbrev pub list_of : OneOrMany → List SendEventInput
list_of (one e) = e ∷ []
list_of (many es) = es

-- every event has a name
abbrev pub all_named : List SendEventInput → Bool
all_named [] = true
all_named (e ∷ es) = not (is_empty e.name) && all_named es

abbrev pub bearer : Text → Text
bearer key = txt "Bearer " ++ key

abbrev pub events_request : Client → Text → OneOrMany → Request
events_request client key input = record {
  url = client.base_url ++ txt "/v1/events";
  authorization = bearer key;
  body = events input;
}

module _ (host : Host) where
  unfoldable pub create_client : ClientOptions → Outcome Client
  create_client opts =
      if is_empty opts.id
      then threw (new_error host (txt "createClient: id is required"))
      else if is_empty opts.signing_key
      then threw (new_error host (txt "createClient: signingKey is required"))
      else returned (record {
        id = opts.id;
        signing_key = opts.signing_key;
        event_key = opts.event_key;
        base_url = strip_slashes (or_else opts.base_url (txt "http://localhost:8288"));
      })

  -- the text of a refusal, or none
  abbrev body_text : Outcome Text → Text
  body_text (returned s) = s
  body_text (threw e) = []

  -- what `send` makes of the response
  unfoldable pub conclude : Outcome Response → Outcome Value
  conclude (threw e) = threw e
  conclude (returned resp) =
      if is_ok resp
      then resp.json
      else threw (
          new_error host (
            txt "client.send: platform returned "
            ++ (print resp.status ++ (txt ": " ++ body_text resp.text))))

module _ (host : Host) {W : Type 0} (fetch : Fetch W) where
  -- the checks of `send`, in their order, and the request
  abbrev send_list : Client → Text → OneOrMany → List SendEventInput → W → Outcome Value × W
  send_list client key input [] w =
      (threw (new_error host (txt "client.send: events must not be empty")), w)
  send_list client key input (e ∷ es) w =
      if all_named (e ∷ es)
      then (let (resp, w') = fetch (events_request client key input) w in (conclude host resp, w'))
      else (threw (new_error host (txt "client.send: event.name is required")), w)

  abbrev send_key : Client → Option Text → OneOrMany → W → Outcome Value × W
  send_key client none input w =
      (threw (new_error host (txt "client.send: eventKey is required (createClient 时传入)")), w)
  send_key client (some key) input w = send_list client key input (list_of input) w

  unfoldable pub send : Client → OneOrMany → W → Outcome Value × W
  send client input w = send_key client (nonempty client.event_key) input w

pub record RegisterOptions : Type 0 where
  pub interval_ms : Option Number
  pub attempts : Option Number

-- `attempts < maxAttempts`
abbrev pub is_below : ℕ → Number → Bool
is_below n (nat m) = ltb n m
is_below n (infinite negative) = not negative
is_below n limit = false

-- What follows an attempt: nothing, as the platform has answered; a timer; or nothing.
pub data Next : Type 0 where
  registered again gave_up : Next

abbrev after_failure : Bool → Next
after_failure true = again
after_failure false = gave_up

abbrev next_of : Outcome Response → Bool → Next
next_of (threw e) more = after_failure more
next_of (returned resp) more = if is_ok resp then registered else after_failure more

-- the line that is logged
abbrev line_of : Text → ℕ → Outcome Response → Text
line_of url n (threw e) = txt "[triggerlink] register #" ++ (print n ++ (txt ": " ++ err_message e))
line_of url n (returned resp) =
    if is_ok resp
    then txt "[triggerlink] registered "
      ++ (url ++ (txt " (platform " ++ (print resp.status ++ txt ")")))
    else txt "[triggerlink] register #"
      ++ (print n ++ (txt ": platform HTTP " ++ print resp.status))

abbrev end_line : Next → List Text
end_line gave_up = txt "[triggerlink] register gave up, please POST /api/v1/apps manually" ∷ []
end_line next = []

abbrev pub app_request : Client → (key url : Text) → Request
app_request client key url = record {
  url = client.base_url ++ txt "/api/v1/apps";
  authorization = bearer key;
  body = app url;
}

-- What a sequence of attempts comes to: their number, how it ended, the log, and the world.
pub record Registration (W : Type 0) : Type 0 where
  pub attempts : ℕ
  pub next : Next
  pub log : List Text
  pub world : W

abbrev pub ended : {W : Type 0} → Next → ℕ → List Text → Text → W → Registration W
ended next n log line w = record {
  attempts = n;
  next = next;
  log = log ++ line ∷ end_line next;
  world = w;
}

module _ {W : Type 0} (fetch : Fetch W) (wait : (interval_ms : Number) → W → W) where
  -- `tryRegister`, and those that its timers call: `n` attempts have been made, and `fuel` more are
  -- looked at. `wait` is what happens until a timer fires.
  unfoldable pub try_register :
      ℕ
      → Request
      → (url : Text) → (interval_ms limit : Number) → (n : ℕ) → (log : List Text) → W
      → Option (Registration W)
  try_register zero req url interval limit n log w = none
  try_register (suc fuel) req url interval limit n log w =
      let (resp, w') = fetch req w in
      let line = line_of url (n + 1) resp in
      let rest =
        try_register fuel req url interval limit (n + 1) (log ++ line ∷ []) (wait interval w') in
      elim (next_of resp (is_below (n + 1) limit)) [
        | again ↦ rest
        | registered ↦ some (ended registered (n + 1) log line w')
        | gave_up ↦ some (ended gave_up (n + 1) log line w')
      ]

module _ (host : Host) {W : Type 0} (fetch : Fetch W) (wait : (interval_ms : Number) → W → W) where
  abbrev register_key :
      ℕ
      → Client
      → Option Text
      → (url : Text) → RegisterOptions
      → W
      → Outcome (Option (Registration W))
  register_key fuel client none url opts w =
      threw (new_error host (txt "client.register: eventKey is required (createClient 时传入)"))
  register_key fuel client (some key) url opts w =
      if is_empty url
      then threw (new_error host (txt "client.register: serveUrl is required"))
      else returned (
          try_register fetch wait fuel (app_request client key url) url
            (or_else opts.interval_ms (nat 2000)) (or_else opts.attempts (nat 150)) 0 [] w)

  unfoldable pub register :
      ℕ → Client → (url : Text) → RegisterOptions → W → Outcome (Option (Registration W))
  register fuel client url opts w = register_key fuel client (nonempty client.event_key) url opts w
