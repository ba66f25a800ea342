-- ===== src/Tests/Serving.antt =====
-- The registry, the manifest and the callbacks.
use triggerlink.Prelude.{
  ℕ, suc, ◌≡◌, ◌≢◌, ◌↔◌, ◌⊎◌, refl, Option, none, some, true, false, List, [], ◌∷◌, Text, txt, map,
  insert, lookup, ◌==◌, keys, values, All, IsDistinct, arith,
}
use triggerlink.Value.{num, nan, nat, neg, Value, undefined, null, str, obj, field, end, prop}
use triggerlink.Execx.{Host, Opcode}
use triggerlink.Effects.{returned}
use triggerlink.Duration.{Duration, ms}
use triggerlink.Function.{FunctionOpts, TriggerFunction, Handler}
use triggerlink.Registry.{registry_of, failure_id, failure_function}
use triggerlink.Registry.Lookup.{
  expand, latest, lookup-registry_of, registry_of-IsDistinct, lookup-registry_of_id,
}
use triggerlink.Manifest.{Manifest, manifest_of}
use triggerlink.Manifest.Entries.{manifest_of_ids}
use triggerlink.Manifest.Durations.{IsReportable, manifest_of-returned_iff}
use triggerlink.Sign.{sign, verify_signature}
use triggerlink.Sign.Verdicts.{verify-sign_iff}
use triggerlink.Client.{Client}
use triggerlink.Serve.Reporting.{answer_with, get-manifest_iff}
use triggerlink.Serve.{get, refuse, Request, post, call_function}
use triggerlink.Serve.Verdicts.{IsAccepted, post_cases, post-IsAccepted}
use triggerlink.Serve.Wire.{opcode_value, read_opcode, opcode_in_json, HasJson}
use triggerlink.Stringify.{stringify}
use triggerlink.Serve.Wire.RoundTrip.{read-opcode_value}
use triggerlink.Tests.Sample.{host, host-HasHexDigests}

abbrev idle : Handler ℕ
idle context s = (returned null, record s { world = suc s.world })

abbrev opts_of : Text → Option (Handler ℕ) → Option Duration → FunctionOpts ℕ
opts_of id failure timeout = record {
  id = id;
  event = some (txt "e");
  match = none;
  cron = none;
  retries = none;
  cancel_on = none;
  timeout = timeout;
  debounce = none;
  throttle = none;
  batch = none;
  on_failure = failure;
}

abbrev first : TriggerFunction ℕ
first = record {
  opts = opts_of (txt "f") (some idle) (some (ms (nat 1500)));
  retries = nat 0;
  handler = idle;
}

abbrev second : TriggerFunction ℕ
second = record {
  opts = opts_of (txt "g") none (some (ms (neg 0)));
  retries = nat 0;
  handler = idle;
}

abbrev app : List (TriggerFunction ℕ)
app = first ∷ []

keys_test :
    keys (registry_of (first ∷ second ∷ first ∷ [])) ≡ txt "f" ∷ txt "f/on-failure" ∷ txt "g" ∷ []
unfolding registry_of insert failure_id failure_function ◌==◌
keys_test = refl

lookup-registry_of_example :
    lookup (txt "f") (registry_of (first ∷ second ∷ []))
    ≡ latest (txt "f") (expand (first ∷ second ∷ []))
lookup-registry_of_example = lookup-registry_of (txt "f") (first ∷ second ∷ [])

registry_keys_test : IsDistinct (keys (registry_of (first ∷ first ∷ [])))
registry_keys_test = registry_of-IsDistinct (first ∷ first ∷ [])

found : lookup (txt "f") (registry_of app) ≡ some first
unfolding registry_of lookup insert failure_id failure_function ◌==◌
found = refl

found_id_test : first.opts.id ≡ txt "f"
found_id_test = lookup-registry_of_id (txt "f") app first found

reportable : All IsReportable (values (registry_of app))
unfolding registry_of insert failure_id failure_function ◌==◌
reportable = ((((1499, refl), (tt, (tt, tt)))), ((tt, (tt, (tt, tt))), tt))

manifest_of-returned_iff_example :
    ((m : Manifest) × (manifest_of host (txt "app") (registry_of app) ≡ returned m))
    ↔ All IsReportable (values (registry_of app))
manifest_of-returned_iff_example = manifest_of-returned_iff host (txt "app") (registry_of app)

made : (m : Manifest) × (manifest_of host (txt "app") (registry_of app) ≡ returned m)
made = manifest_of-returned_iff_example.1 reportable

manifest_ids_test :
    (map (λ e. e.id) made.0.functions ≡ keys (registry_of app))
    × IsDistinct (map (λ e. e.id) made.0.functions)
manifest_ids_test = manifest_of_ids host (txt "app") app made.0 made.1

abbrev request : Value
request = obj (field (txt "ctx") (obj (field (txt "function_id") (str (txt "f")) end)) end)

-- a host that parses one request
abbrev parsing : Host
parsing = record host { parse_json = λ body. some request }

abbrev client : Client
client = record { id = txt "app"; signing_key = txt "k"; event_key = none; base_url = txt "u" }

abbrev callback : Request
callback = record { signature = some (sign parsing (txt "k") (1 ∷ []) 5000); body = 1 ∷ [] }

is_accepted : IsAccepted parsing client (registry_of app) callback 6000
is_accepted = record {
  request = request;
  id = txt "f";
  fn = first;
  fits = omega arith;
  verified =
      (verify-sign_iff parsing (txt "k") (1 ∷ []) 5000 6000
          (record { hex = host-HasHexDigests.hex; nonempty = host-HasHexDigests.nonempty })).1
        (omega arith);
  parsed = refl;
  named = unfold prop ◌==◌ in refl;
  found = found;
}

accepted_post_test :
    post parsing client (registry_of app) callback 6000 0
    ≡ call_function first (txt "f") (prop (txt "ctx") request) 0
unfolding is_accepted
accepted_post_test = post-IsAccepted parsing client (registry_of app) callback 6000 0 is_accepted

post_cases_example :
    (((post parsing client (registry_of app) callback 6000 0).0.status ≢ 200)
      × ((post parsing client (registry_of app) callback 6000 0).1 ≡ 0))
    ⊎ (IsAccepted parsing client (registry_of app) callback 6000
        × ((post parsing client (registry_of app) callback 6000 0).0.status ≡ 200))
post_cases_example = post_cases parsing client (registry_of app) callback 6000 0

abbrev unsigned : Request
unsigned = record { signature = none; body = [] }

get-manifest_iff_example :
    (((m : Manifest) × (get host client (registry_of app) unsigned 1000 ≡ returned (answer_with m)))
      ↔ ((verify_signature host (txt "k") none [] 1000 ≡ true)
          × All IsReportable (values (registry_of app))))
    × ((verify_signature host (txt "k") none [] 1000 ≡ false)
        → get host client (registry_of app) unsigned 1000
          ≡ returned (refuse 401 (txt "unauthorized")))
get-manifest_iff_example = get-manifest_iff host client (registry_of app) unsigned 1000

abbrev sent : Opcode
sent =
    Opcode.send_event (txt "h") (txt "notify")
      (record { id = none; name = txt "user/greeted"; body = null; ts = some (txt "t") } ∷ [])

-- what JSON does not hold is read as null, or is missing
nan_test :
    read_opcode (
      opcode_value
        (Opcode.run_complete (obj (field (txt "a") (num nan) (field (txt "b") undefined end)))))
    ≡ some (Opcode.run_complete (obj (field (txt "a") null end)))
unfolding read_opcode opcode_value stringify prop ◌==◌
nan_test = refl

read-opcode_value_example :
    (read_opcode (opcode_value sent) ≡ some (opcode_in_json sent))
    × (HasJson sent → read_opcode (opcode_value sent) ≡ some sent)
read-opcode_value_example = read-opcode_value sent
