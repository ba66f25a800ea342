-- ===== src/Client/BaseUrl.antt =====
-- The base URL of a client (`createClient` of sdk-ts/src/client.ts).
use triggerlink.Prelude.{
  ℕ, ◌≡◌, ◌≢◌, ◌⊎◌, inl, inr, refl, ap, [], ◌∷◌, ◌++◌, Bool, Bool-cases, true, false, All, Text,
  txt, is_empty, nat_eq, or_else, arith, if◌then◌else◌, ◌&&◌,
}
use triggerlink.Execx.{Host, Thrown}
use triggerlink.Effects.{Outcome, returned, threw, new_error}
use triggerlink.Client.{ClientOptions, Client, strip_slashes, create_client}

abbrev pub IsSlash : ℕ → Type 0
IsSlash c = c ≡ b'/'

-- The text does not end with a slash.
abbrev pub EndsOpen : Text → Type 0
EndsOpen [] = Unit {0}
EndsOpen (c ∷ []) = c ≢ b'/'
EndsOpen (c ∷ d ∷ s) = EndsOpen (d ∷ s)

cons-EndsOpen : (c : ℕ) (s : Text) → (s ≢ []) ⊎ (c ≢ b'/') → EndsOpen s → EndsOpen (c ∷ s)
cons-EndsOpen c [] (inl full) ends = absurd (full refl)
cons-EndsOpen c [] (inr other) ends = other
cons-EndsOpen c (d ∷ s) why ends = ends

and_false : (b : Bool) → (b && false) ≡ false
and_false true = refl
and_false false = refl

-- `s` is `kept` and the slashes at its end.
abbrev pub Split : (s kept : Text) → Type 0
Split s kept = (slashes : Text) × (s ≡ kept ++ slashes) × All IsSlash slashes × EndsOpen kept

cons-Split :
    (c : ℕ) (s kept : Text)
    → Split s kept
    → Split (c ∷ s) (if nat_eq c b'/' && is_empty kept then [] else c ∷ kept)
cons-Split c s [] (slashes, whole, all, ends) = elim (Bool-cases (nat_eq c b'/')) [
  | inl slash ↦ rw slash (c ∷ slashes, ap (λ t. c ∷ t) whole, (ground (arith, slash), all), tt)
  | inr other ↦ rw other (slashes, ap (λ t. c ∷ t) whole, all, ground (arith, other))
]
cons-Split c s (d ∷ kept) (slashes, whole, all, ends) =
    rw (and_false (nat_eq c b'/')) (slashes, ap (λ t. c ∷ t) whole, all, ends)

strip_slashes-Split : (s : Text) → Split s (strip_slashes s)
unfolding strip_slashes
strip_slashes-Split [] = ([], refl, tt, tt)
strip_slashes-Split (c ∷ s) = cons-Split c s (strip_slashes s) (strip_slashes-Split s)

guard-throws :
    {A : Type 0} (b : Bool) (x : Thrown) (o : Outcome A)
    → b ≡ true
    → (e : Thrown) × ((if b then threw x else o) ≡ threw e)
guard-throws b x o e = (x, rw e)

abbrev client_of : ClientOptions → Client
client_of opts = record {
  id = opts.id;
  signing_key = opts.signing_key;
  event_key = opts.event_key;
  base_url = strip_slashes (or_else opts.base_url (txt "http://localhost:8288"));
}

abbrev made : ClientOptions → Outcome Client
made opts = returned (client_of opts)

abbrev no_key : Host → Thrown
no_key host = new_error host (txt "createClient: signingKey is required")

-- `createClient` makes a client exactly of an id and a signing key that are not empty, and keeps both; its
-- base URL is the given one, or http://localhost:8288, without all the slashes at its end.
pub create_client_cases :
    (host : Host) (opts : ClientOptions)
    → ((opts.id ≢ [])
        × (opts.signing_key ≢ [])
        × (client : Client) × (create_client host opts ≡ returned client)
        × (client.id ≡ opts.id)
        × (client.signing_key ≡ opts.signing_key)
        × (client.event_key ≡ opts.event_key)
        × Split (or_else opts.base_url (txt "http://localhost:8288")) client.base_url)
      ⊎ (((opts.id ≡ []) ⊎ (opts.signing_key ≡ []))
          × (e : Thrown) × (create_client host opts ≡ threw e))
unfolding create_client
create_client_cases host opts = elim (Bool-cases (is_empty opts.id)) [
  | inl bare ↦
      let (e, refused) = guard-throws (is_empty opts.id) _ _ bare in
      inr (inl (ground (arith, bare)), e, refused)
  | inr named ↦ elim (Bool-cases (is_empty opts.signing_key)) [
    | inl bare ↦
        let (e, refused) =
          guard-throws (is_empty opts.signing_key) (no_key host) (made opts) bare in
        inr (inr (ground (arith, bare)), e, rw named refused)
    | inr keyed ↦ inl (
      ground (arith, named),
      ground (arith, keyed),
      client_of opts,
      rw (named, keyed) refl,
      refl,
      refl,
      refl,
      strip_slashes-Split (or_else opts.base_url (txt "http://localhost:8288")),
    )
  ]
]
