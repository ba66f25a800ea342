-- ===== src/Client/Sending.antt =====
-- `send` of a client (sdk-ts/src/client.ts).
use triggerlink.Prelude.{
  ◌≡◌, ◌≢◌, ◌↔◌, ◌⊎◌, inl, inr, refl, sym, ◌∙◌, Option, none, some, List, [], ◌∷◌, Bool-cases, true,
  false, false≢true, All, Text, txt, arith,
}
use triggerlink.Value.{Value}
use triggerlink.Execx.{Host, Thrown}
use triggerlink.Effects.{Outcome, threw, new_error}
use triggerlink.Client.{
  Client, SendEventInput, OneOrMany, Fetch, events_request, nonempty, list_of, all_named, conclude,
  send, send_key, send_list,
}

abbrev pub IsNamed : SendEventInput → Type 0
IsNamed e = e.name ≢ []

abbrev no_name : Host → Thrown
no_name host = new_error host (txt "client.send: event.name is required")

-- A key, and one event at least, all with names.
abbrev pub IsSendable : Client → OneOrMany → Text → Type 0
IsSendable client input key =
    (client.event_key ≡ some key) × (key ≢ []) × (list_of input ≢ []) × All IsNamed (list_of input)

all_named_iff : (es : List SendEventInput) → (all_named es ≡ true) ↔ All IsNamed es
all_named_iff [] = (λ e. tt, λ h. refl)
all_named_iff (e ∷ es) =
    let (to, from) = all_named_iff es in
    (λ h. (ground (arith, h), to (ground (arith, h))), λ (p, ps). ground (arith, p, from ps))

nonempty-some :
    (o : Option Text) (key : Text) → (nonempty o ≡ some key) ↔ ((o ≡ some key) × (key ≢ []))
nonempty-some none key = (λ e. cc, λ (e, f). cc)
nonempty-some (some []) key = (λ e. cc, λ (e, f). absurd (f (cc)))
nonempty-some (some (c ∷ s)) key = (λ e. (e, λ f. cc), λ (e, f). e)

all_named_cases :
    (es : List SendEventInput)
    → (all_named es ≡ true × All IsNamed es) ⊎ (all_named es ≡ false × ¬ All IsNamed es)
all_named_cases es = elim (Bool-cases (all_named es)) [
  | inl named ↦ inl (named, (all_named_iff es).0 named)
  | inr missing ↦ inr (missing, λ h. false≢true (sym missing ∙ (all_named_iff es).1 h))
]

module _ (host : Host) {W : Type 0} (fetch : Fetch W) (client : Client) (input : OneOrMany) where
  -- the request, and what is made of the response
  abbrev pub posted : Text → W → Outcome Value × W
  posted key w =
      let (resp, w') = fetch (events_request client key input) w in (conclude host resp, w')

  abbrev IsList : List SendEventInput → Type 0
  IsList es = (es ≢ []) × All IsNamed es

  abbrev Throws : Outcome Value × W → W → Type 0
  Throws r w = (e : Thrown) × (r ≡ (threw e, w))

  send_list_cases :
      (key : Text) (es : List SendEventInput) (w : W)
      → (IsList es × (send_list host fetch client key input es w ≡ posted key w))
        ⊎ ((¬ IsList es) × Throws (send_list host fetch client key input es w) w)
  send_list_cases key [] w = inr (λ h. h.0 refl, (_, refl))
  send_list_cases key (e ∷ es) w = elim (all_named_cases (e ∷ es)) [
    | inl (named, all) ↦ inl ((λ e. cc, all), rw named)
    | inr (missing, some_missing) ↦ inr (λ h. some_missing h.1, (no_name host, rw missing))
  ]

  send_key_cases :
      (o : Option Text) (w : W)
      → ((key : Text) × (o ≡ some key)
          × IsList (list_of input)
          × (send_key host fetch client o input w ≡ posted key w))
        ⊎ ((((key : Text) → o ≡ some key → ¬ IsList (list_of input)))
            × Throws (send_key host fetch client o input w) w)
  send_key_cases none w = inr (λ key e. absurd (cc), (_, refl))
  send_key_cases (some key) w = elim (send_list_cases key (list_of input) w) [
    | inl (ok, sent) ↦ inl (key, refl, ok, sent)
    | inr (bad, throws) ↦ inr (λ other e. bad, throws)
  ]

  -- `send` posts once, where the client has an event key and there are events that all have names, and
  -- returns what it makes of the response; in every other case it throws before it calls fetch.
  pub send_cases :
      (w : W)
      → ((key : Text) × IsSendable client input key
          × (send host fetch client input w ≡ posted key w))
        ⊎ (((key : Text) → ¬ IsSendable client input key)
            × (e : Thrown) × (send host fetch client input w ≡ (threw e, w)))
  unfolding send
  send_cases w = elim (send_key_cases (nonempty client.event_key) w) [
    | inl (key, given, ok, sent) ↦
        let (is_key, full) = (nonempty-some client.event_key key).0 given in
        inl (key, (is_key, full, ok.0, ok.1), sent)
    | inr (bad, throws) ↦ inr (
      λ key (is_key, full, some_event, named).
          bad key ((nonempty-some client.event_key key).1 (is_key, full)) (some_event, named),
      throws.0,
      throws.1,
    )
  ]
