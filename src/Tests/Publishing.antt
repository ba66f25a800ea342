-- ===== src/Tests/Publishing.antt =====
-- A client whose platform comes up at the third attempt.
use triggerlink.Prelude.{
  ℕ, suc, ◌+◌, ◌≤◌, ◌≡◌, ◌≢◌, ◌⊎◌, refl, some, none, [], ◌∷◌, Text, txt, arith, ltb, if◌then◌else◌,
}
use triggerlink.Value.{null, nat}
use triggerlink.Execx.{Thrown}
use triggerlink.Effects.{returned, threw}
use triggerlink.Client.{
  ClientOptions, Client, SendEventInput, many, Fetch, RegisterOptions, Registration, create_client,
  strip_slashes, send, conclude, register, app_request,
}
use triggerlink.Client.BaseUrl.{Split, create_client_cases}
use triggerlink.Client.Sending.{IsSendable, posted, send_cases}
use triggerlink.Client.Registering.{Tries, Ends, register-Tries}
use triggerlink.Tests.Sample.{host}

abbrev options : ClientOptions
options = record {
  id = txt "app";
  signing_key = txt "k";
  event_key = some (txt "e");
  base_url = some (txt "http://p//");
}

abbrev client : Client
client = record {
  id = txt "app";
  signing_key = txt "k";
  event_key = some (txt "e");
  base_url = txt "http://p";
}

create_client_test : create_client host options ≡ returned client
unfolding create_client strip_slashes
create_client_test = refl

created_test :
    ((txt "app" ≢ [])
      × (txt "k" ≢ [])
      × (made : Client) × (create_client host options ≡ returned made)
      × (made.id ≡ txt "app")
      × (made.signing_key ≡ txt "k")
      × (made.event_key ≡ some (txt "e"))
      × Split (txt "http://p//") made.base_url)
    ⊎ (((txt "app" ≡ []) ⊎ (txt "k" ≡ [])) × (e : Thrown) × (create_client host options ≡ threw e))
created_test = create_client_cases host options

-- the world counts the requests
abbrev platform : Fetch ℕ
platform req n = (
  (if ltb n 2
      then threw (Thrown.other (txt "refused"))
      else returned (record { status = 200; text = returned []; json = returned null })),
  suc n,
)

abbrev event : SendEventInput
event = record { id = none; name = txt "n"; «data» = none; ts = none }

send_test : send host platform client (many (event ∷ [])) 2 ≡ (returned null, 3)
unfolding send conclude
send_test = refl

send_cases_example :
    ((key : Text) × IsSendable client (many (event ∷ [])) key
      × (send host platform client (many (event ∷ [])) 2
          ≡ posted host platform client (many (event ∷ [])) key 2))
    ⊎ (((key : Text) → ¬ IsSendable client (many (event ∷ [])) key)
        × (e : Thrown) × (send host platform client (many (event ∷ [])) 2 ≡ (threw e, 2)))
send_cases_example = send_cases host platform client (many (event ∷ [])) 2

abbrev plain : RegisterOptions
plain = record { interval_ms = none; attempts = some (nat 5) }

register-Tries_example :
    (r : Registration ℕ) × (register host platform (λ ms w. w) 5 client (txt "u") plain 0
      ≡ returned (some r))
    × (failures : ℕ) × (w' : ℕ) × Tries platform
        (λ ms w. w)
        (app_request client (txt "e") (txt "u"))
        (nat 2000)
        failures
        0
        w'
    × (r.attempts ≡ failures + 1)
    × ((failures ≡ 0) ⊎ (failures + 1 ≤ 5))
    × (r.world ≡ (platform (app_request client (txt "e") (txt "u")) w').1)
    × Ends platform
        (λ ms w. w)
        (app_request client (txt "e") (txt "u"))
        (nat 2000)
        5
        (failures + 1)
        w'
        r.next
register-Tries_example =
    register-Tries host platform (λ ms w. w) client (txt "e") (txt "u") plain 5 5 0 refl (λ e. cc)
      (λ e. cc) refl (omega arith) (omega arith)
