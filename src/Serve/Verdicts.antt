-- ===== src/Serve/Verdicts.antt =====
-- When POST of sdk-ts/src/serve.ts refuses a request, and when a handler runs.
use triggerlink.Prelude.{
  ℕ, ◌≤◌, ◌≡◌, ◌≢◌, ◌⊎◌, inl, inr, refl, some, true, false, Bool-cases, Option-cases, arith, Text,
  txt, lookup, length, ltb,
}
use triggerlink.Value.{Value, str, prop}
use triggerlink.Execx.{Host}
use triggerlink.Sign.{verify_signature}
use triggerlink.Function.{TriggerFunction}
use triggerlink.Registry.{Registry}
use triggerlink.Client.{Client}
use triggerlink.Serve.{Request, max_body, find_function, call_function, dispatch, post}

module _ {W : Type 0} where
  -- A callback that reaches a function: it fits, its signature holds, it parses, and it names a
  -- function of the registry.
  pub record IsAccepted (host : Host) (client : Client) (reg : Registry W) (req : Request) (now : ℕ)
      : Type 0 where
    pub request : Value
    pub id : Text
    pub fn : TriggerFunction W
    pub fits : length req.body ≤ max_body
    pub verified : verify_signature host client.signing_key req.signature req.body now ≡ true
    pub parsed : host.parse_json req.body ≡ some request
    pub named : prop (txt "function_id") (prop (txt "ctx") request) ≡ str id
    pub found : lookup id reg ≡ some fn

  find_function_lem :
      (reg : Registry W) (v : Value) (id : Text) (fn : TriggerFunction W)
      → find_function reg v ≡ some (id, fn)
      → (v ≡ str id) × (lookup id reg ≡ some fn)
  unfolding find_function
  find_function_lem reg (str k) id fn h = ground arith
  find_function_lem reg v id fn h = cc

  call_function_status :
      (fn : TriggerFunction W) (id : Text) (ctx : Value) (w : W)
      → (call_function fn id ctx w).0.status ≡ 200
  unfolding call_function
  call_function_status fn id ctx w = refl

  find_function_found :
      (reg : Registry W) (id : Text) (fn : TriggerFunction W)
      → lookup id reg ≡ some fn
      → find_function reg (str id) ≡ some (id, fn)
  unfolding find_function
  find_function_found reg id fn h = ground (arith, h)

-- An accepted callback is answered by one call of the function that it names.
pub post-IsAccepted :
    {W : Type 0} (host : Host) (client : Client) (reg : Registry W) (req : Request) (now : ℕ)
    (w : W) (a : IsAccepted host client reg req now)
    → post host client reg req now w ≡ call_function a.fn a.id (prop (txt "ctx") a.request) w
unfolding post dispatch
post-IsAccepted host client reg req now w a =
    let fits : ltb max_body (length req.body) ≡ false = ground (arith, a.fits) in
    rw (fits, a.verified, a.parsed, a.named) (rw (find_function_found reg a.id a.fn a.found))

dispatch_cases :
    {W : Type 0} (reg : Registry W) (request : Value) (w : W)
    → ((dispatch reg request w).0.status ≢ 200) × ((dispatch reg request w).1 ≡ w)
      ⊎ ((id : Text) × (fn : TriggerFunction W) × (prop
              (txt "function_id")
              (prop (txt "ctx") request)
            ≡ str id)
          × (lookup id reg ≡ some fn)
          × ((dispatch reg request w).0.status ≡ 200))
unfolding dispatch
dispatch_cases reg request w =
    elim (Option-cases (find_function reg (prop (txt "function_id") (prop (txt "ctx") request)))) [
      | inl missing ↦ inl (rw missing (omega arith), rw missing)
      | inr (found, here) ↦
          let (named, registered) = find_function_lem reg _ found.0 found.1 here in
          inr (found.0, found.1, named, registered, rw here (call_function_status _ _ _ w))
    ]

-- POST either answers with a status other than 200 and runs nothing of the application, or the
-- callback is accepted and the status is 200. So no handler runs for a request whose signature does
-- not hold, and the world is as it was after each refusal.
pub post_cases :
    {W : Type 0} (host : Host) (client : Client) (reg : Registry W) (req : Request) (now : ℕ)
    (w : W)
    → (((post host client reg req now w).0.status ≢ 200) × ((post host client reg req now w).1 ≡ w))
      ⊎ (IsAccepted host client reg req now × ((post host client reg req now w).0.status ≡ 200))
unfolding post
post_cases host client reg req now w = elim (Bool-cases (ltb max_body (length req.body))) [
  | inl large ↦ inl (rw large (omega arith), rw large)
  | inr fits ↦
      elim (Bool-cases (verify_signature host client.signing_key req.signature req.body now)) [
        | inr forged ↦ inl (rw (fits, forged) (omega arith), rw (fits, forged))
        | inl verified ↦ elim (Option-cases (host.parse_json req.body)) [
          | inl broken ↦
              inl (rw (fits, verified, broken) (omega arith), rw (fits, verified, broken))
          | inr (request, parsed) ↦ elim (dispatch_cases reg request w) [
            | inl (refused, same) ↦
                inl (rw (fits, verified, parsed) refused, rw (fits, verified, parsed) same)
            | inr (id, fn, named, found, status) ↦ inr (
              record {
                request = request;
                id = id;
                fn = fn;
                fits = ground arith;
                verified = verified;
                parsed = parsed;
                named = named;
                found = found;
              },
              rw (fits, verified, parsed) status,
            )
          ]
        ]
      ]
]
