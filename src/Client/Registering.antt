-- ===== src/Client/Registering.antt =====
-- `register` of a client and its retries (sdk-ts/src/client.ts).
use triggerlink.Prelude.{
  ℕ, zero, suc, ◌+◌, ◌≤◌, ◌<◌, ◌≡◌, ◌≢◌, ◌⊎◌, inl, inr, refl, ap, subst, some, List, [], ◌∷◌, ◌++◌,
  Bool, Bool-cases, true, false, Text, is_empty, or_else, arith, ltb,
}
use triggerlink.Value.{Number, nat}
use triggerlink.Execx.{Host}
use triggerlink.Effects.{Outcome, returned, threw}
use triggerlink.Client.{
  Client, Request, Response, Fetch, RegisterOptions, Registration, Next, registered, again, gave_up,
  is_ok, next_of, line_of, ended, app_request, nonempty, try_register, register,
}

-- The platform has answered that the application is registered.
abbrev pub is_answered : Outcome Response → Bool
is_answered (threw e) = false
is_answered (returned resp) = is_ok resp

next_cases :
    (resp : Outcome Response) (more : Bool)
    → ((is_answered resp ≡ true) × (next_of resp more ≡ registered))
      ⊎ ((is_answered resp ≡ false) × (more ≡ true) × (next_of resp more ≡ again))
      ⊎ ((is_answered resp ≡ false) × (more ≡ false) × (next_of resp more ≡ gave_up))
next_cases (threw e) true = inr (inl (refl, refl, refl))
next_cases (threw e) false = inr (inr (refl, refl, refl))
next_cases (returned resp) more = elim (Bool-cases (is_ok resp)) [
  | inl ok ↦ inl (ok, rw ok)
  | inr refused ↦ elim (Bool-cases more) [
    | inl more_left ↦ inr (inl (refused, more_left, rw (refused, more_left)))
    | inr last ↦ inr (inr (refused, last, rw (refused, last)))
  ]
]

module _ {W : Type 0} (fetch : Fetch W) (wait : (interval_ms : Number) → W → W) (req : Request)
    (interval : Number) where
  -- so many attempts that fail, and a timer after each
  pub data Tries : ℕ → W → W → Type 0 where
    start : {w : W} → Tries 0 w w
    failed :
        {n : ℕ} {w w' : W}
        → is_answered (fetch req w).0 ≡ false
        → Tries n (wait interval (fetch req w).1) w'
        → Tries (suc n) w w'

  -- How the last attempt ends, which is made in the world `w`, the `n`-th of at most `m`.
  abbrev pub Ends : (m n : ℕ) → W → Next → Type 0
  Ends m n w next =
      ((is_answered (fetch req w).0 ≡ true) × (next ≡ registered))
      ⊎ ((is_answered (fetch req w).0 ≡ false) × (next ≡ gave_up) × (m ≤ n))

  abbrev Told : (m n : ℕ) → W → Registration W → Type 0
  Told m n w r =
      (k : ℕ) × (w' : W) × Tries k w w'
      × (r.attempts ≡ n + k + 1)
      × ((k ≡ 0) ⊎ (n + k + 1 ≤ m))
      × (r.world ≡ (fetch req w').1)
      × Ends m (n + k + 1) w' r.next

  plus_zero : (n : ℕ) → n + 1 ≡ n + 0 + 1
  plus_zero n = omega arith

  shift : (n k : ℕ) → n + 1 + k + 1 ≡ n + suc k + 1
  shift n k = omega arith

  within : (m n k : ℕ) → (k ≡ 0) ⊎ (n + 1 + k + 1 ≤ m) → n + 1 < m → n + suc k + 1 ≤ m
  within m n k (inl e) more = omega (arith, e, more)
  within m n k (inr less) more = omega (arith, less)

  at_once-Told :
      (m n : ℕ) (w : W) (log : List Text) (line : Text) (next : Next)
      → Ends m (n + 1) w next
      → Told m n w (ended next (n + 1) log line (fetch req w).1)
  at_once-Told m n w log line next ends =
      (0, w, start, omega arith, inl refl, refl, subst (λ j. Ends m j w next) (plus_zero n) ends)

  later-Told :
      (m n : ℕ) (w : W) (r : Registration W)
      → is_answered (fetch req w).0 ≡ false
      → n + 1 < m
      → Told m (n + 1) (wait interval (fetch req w).1) r
      → Told m n w r
  later-Told m n w r refused more (k, w', tries, attempts, limit, world, ends) = (
    suc k,
    w',
    failed refused tries,
    omega (arith, attempts),
    inr (within m n k limit more),
    world,
    subst (λ j. Ends m j w' r.next) (shift n k) ends,
  )

  try_register-Told :
      (fuel m n : ℕ) (url : Text) (log : List Text) (w : W)
      → 1 ≤ fuel
      → m ≤ n + fuel
      → (r : Registration W) × (try_register fetch wait fuel req url interval (nat m) n log w
          ≡ some r)
        × Told m n w r
  unfolding try_register
  try_register-Told zero m n url log w some_fuel enough = absurd (omega (arith, some_fuel))
  try_register-Told (suc fuel) m n url log w some_fuel enough =
      let line = line_of url (n + 1) (fetch req w).0 in
      let w' = (fetch req w).1 in
      elim (next_cases (fetch req w).0 (ltb (n + 1) m)) [
        | inl (answered, next) ↦ (
          ended registered (n + 1) log line w',
          rw (next, try_register),
          at_once-Told m n w log line registered (inl (answered, refl)),
        )
        | inr (inr (refused, last, next)) ↦ (
          ended gave_up (n + 1) log line w',
          rw (next, try_register),
          at_once-Told m n w log line gave_up (inr (refused, refl, ground (arith, last))),
        )
        | inr (inl (refused, more, next)) ↦
            let left : n + 1 < m = ground (arith, more) in
            let (r, ran, told) =
              try_register-Told fuel m (n + 1) url (log ++ line ∷ []) (wait interval w')
                (omega (arith, enough, left)) (omega (arith, enough)) in
            (r, rw (next, try_register) ran, later-Told m n w r refused left told)
      ]

zero_plus : (k : ℕ) → 0 + k + 1 ≡ k + 1
zero_plus k = omega arith

nonempty-cons : (key : Text) → key ≢ [] → nonempty (some key) ≡ some key
nonempty-cons [] full = absurd (full refl)
nonempty-cons (c ∷ s) full = refl

-- `register` posts at least once and at most `m` times (once, if `m` is zero), where `m` is the option
-- `attempts`, or 150: it stops after the first attempt that the platform answers with success, all
-- before it have failed, with a timer after each, and it gives up only after `m` attempts that all have
-- failed. Fuel for `m` attempts is enough.
pub register-Tries :
    (host : Host) {W : Type 0} (fetch : Fetch W) (wait : (interval_ms : Number) → W → W)
    (client : Client) (key url : Text) (opts : RegisterOptions) (fuel m : ℕ) (w : W)
    → client.event_key ≡ some key
    → key ≢ []
    → url ≢ []
    → or_else opts.attempts (nat 150) ≡ nat m
    → 1 ≤ fuel
    → m ≤ fuel
    → (r : Registration W) × (register host fetch wait fuel client url opts w ≡ returned (some r))
      × (failures : ℕ) × (w' : W) × Tries fetch wait
          (app_request client key url)
          (or_else opts.interval_ms (nat 2000))
          failures
          w
          w'
      × (r.attempts ≡ failures + 1)
      × ((failures ≡ 0) ⊎ (failures + 1 ≤ m))
      × (r.world ≡ (fetch (app_request client key url) w').1)
      × Ends fetch wait
          (app_request client key url)
          (or_else opts.interval_ms (nat 2000))
          m
          (failures + 1)
          w'
          r.next
unfolding register
register-Tries host fetch wait client key url opts fuel m w given full url_full limit some_fuel
      enough =
    let (r, ran, (k, w', tries, attempts, limit', world, ends)) =
      try_register-Told fetch wait (app_request client key url)
        (or_else opts.interval_ms (nat 2000)) fuel m 0 url [] w some_fuel (omega (arith, enough)) in
    let named : is_empty url ≡ false = ground (arith, url_full) in
    (
      r,
      rw (given, nonempty-cons key full, named, limit) (ap returned ran),
      k,
      w',
      tries,
      omega (arith, attempts),
      subst (λ j. (k ≡ 0) ⊎ (j ≤ m)) (zero_plus k) limit',
      world,
      subst
          (λ j.
            Ends fetch wait (app_request client key url) (or_else opts.interval_ms (nat 2000)) m j
              w' r.next)
          (zero_plus k) ends,
    )
