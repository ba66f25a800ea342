-- ===== src/Messages/Pairing.antt =====
-- Which lists of messages assertPreparedMessagesShape of sdk-ts/src/agent.ts accepts.
use triggerlink.Prelude.{
  ◌≡◌, ◌↔◌, inl, inr, refl, sym, ap, subst, ◌∙◌, Option, none, some, List, [], ◌∷◌, ◌++◌, Bool,
  true, false, not, ◌&&◌, ◌||◌, Text, txt, ◌==◌, ==_iff, ==_refl, arith, All, Bool-cases,
  if◌then◌else◌,
}
use triggerlink.Value.{Value, prop}
use triggerlink.Messages.{
  elements, Event, call, result, part_event, has, include, exclude, Progress, pending, bad,
  on_event, go_on, check_parts, check_messages, parts_of, has_role, at_end, refusal_of,
  prepared_refusal,
}

abbrev prepend : Option Event → List Event → List Event
prepend none es = es
prepend (some e) es = e ∷ es

-- The calls and results of a list of messages, in order.
unfoldable pub part_events : Value → List Value → List Event
part_events role [] = []
part_events role (part ∷ parts) = prepend (part_event role part) (part_events role parts)

unfoldable pub events_of : List Value → List Event
unfolding part_events
events_of [] = []
events_of (m ∷ ms) =
    part_events (prop (txt "role") m) (parts_of (prop (txt "content") m)) ++ events_of ms

-- For one id: every result follows a call that has had no result, and no call is left without one.
unfoldable pub is_paired : Text → Bool → List Event → Bool
is_paired id waiting [] = not waiting
is_paired id waiting (call j ∷ es) = is_paired id (j == id || waiting) es
is_paired id waiting (result j ∷ es) =
    (not (j == id) || waiting) && is_paired id (not (j == id) && waiting) es

has-append : (id : Text) (xs ys : List Text) → has id (xs ++ ys) ≡ (has id xs || has id ys)
unfolding has
has-append id [] ys = refl
has-append id (x ∷ xs) ys = ground (arith, has-append id xs ys)

has-include : (id j : Text) (xs : List Text) → has id (include j xs) ≡ (j == id || has id xs)
unfolding include has
has-include id j xs = elim (Bool-cases (has j xs)) [
  | inl there ↦ rw there (ground (arith, ==_iff j id))
  | inr absent ↦ rw (absent, has-append) (ground arith)
]

has-exclude : (id j : Text) (xs : List Text) → has id (exclude j xs) ≡ (not (j == id) && has id xs)
unfolding exclude has
has-exclude id j [] = ground arith
has-exclude id j (x ∷ xs) =
    ground (arith, has-exclude id j xs, ==_iff x j, ==_iff j id, ==_iff x id)

-- The loop as an automaton over the calls and results.
run_events : List Event → List Text → Option (List Text)
run_events [] ids = some ids
run_events (call j ∷ es) ids = run_events es (include j ids)
run_events (result j ∷ es) ids =
    let rest = run_events es (exclude j ids) in if has j ids then rest else none

none_left : (ids : List Text) → ((id : Text) → not (has id ids) ≡ true) → ids ≡ []
unfolding has
none_left [] h = refl
none_left (x ∷ xs) h = cc (h x, ==_refl x)

-- The automaton ends with nothing pending exactly if the events of each id are paired.
run_events_iff :
    (es : List Event) (ids : List Text)
    → (run_events es ids ≡ some []) ↔ ((id : Text) → is_paired id (has id ids) es ≡ true)
unfolding run_events is_paired
run_events_iff [] ids = (
  λ e id. let none_pending : ids ≡ [] = cc in rw none_pending (unfold has in refl),
  λ h. ap some (none_left ids h),
)
run_events_iff (call j ∷ es) ids =
    let (to, from) = run_events_iff es (include j ids) in
    (λ e id. rw has-include at (to e id), λ h. from (λ id. rw has-include (h id)))
run_events_iff (result j ∷ es) ids =
    let (to, from) = run_events_iff es (exclude j ids) in
    elim (Bool-cases (has j ids)) [
      | inl there ↦ (
        λ e id.
            let later : is_paired id (not (j == id) && has id ids) es ≡ true =
              rw has-exclude at (to (rw there at e) id) in
            ground (arith, later, ==_iff j id),
        λ h. rw there (from (λ id. rw has-exclude (ground (arith, h id)))),
      )
      | inr absent ↦ (λ e id. cc (rw absent at e), λ h. ground (arith, h j, ==_refl j))
    ]

abbrev outcome : Progress → Option (List Text)
outcome (bad why) = none
outcome (pending ids) = some ids

abbrev and_then : Option (List Text) → (List Text → Option (List Text)) → Option (List Text)
and_then none k = none
and_then (some ids) k = k ids

outcome-go_on :
    (p : Progress) (k : List Text → Progress)
    → outcome (go_on p k) ≡ and_then (outcome p) (λ ids. outcome (k ids))
outcome-go_on (bad why) k = refl
outcome-go_on (pending ids) k = refl

on_event-events :
    (role : Value) (parts : List Value) (o : Option Event) (ids : List Text)
    → ((next : List Text)
        → outcome (check_parts role parts next) ≡ run_events (part_events role parts) next)
    → outcome (go_on (on_event o ids) (check_parts role parts))
      ≡ run_events (prepend o (part_events role parts)) ids
unfolding run_events
on_event-events role parts none ids ih = ih ids
on_event-events role parts (some (call j)) ids ih = ih (include j ids)
on_event-events role parts (some (result j)) ids ih = ground (arith, ih (exclude j ids))

check_parts-events :
    (role : Value) (parts : List Value) (ids : List Text)
    → outcome (check_parts role parts ids) ≡ run_events (part_events role parts) ids
unfolding check_parts part_events run_events
check_parts-events role [] ids = refl
check_parts-events role (part ∷ parts) ids =
    on_event-events role parts (part_event role part) ids (check_parts-events role parts)

run_events-append :
    (es fs : List Event) (ids : List Text)
    → run_events (es ++ fs) ids ≡ and_then (run_events es ids) (run_events fs)
unfolding run_events
run_events-append [] fs ids = refl
run_events-append (call j ∷ es) fs ids = run_events-append es fs (include j ids)
run_events-append (result j ∷ es) fs ids = ground (arith, run_events-append es fs (exclude j ids))

abbrev pub HasRoles : List Value → Type 0
HasRoles = All (λ m. has_role m ≡ true)

abbrev all_roles : List Value → Bool
all_roles [] = true
all_roles (m ∷ ms) = has_role m && all_roles ms

and_then_if :
    (ms : List Value) (o : Option (List Text))
    → ((next : List Text)
        → outcome (check_messages ms next)
          ≡ (if all_roles ms then run_events (events_of ms) next else none))
    → and_then o (λ next. outcome (check_messages ms next))
      ≡ (if all_roles ms then and_then o (run_events (events_of ms)) else none)
and_then_if ms none ih = ground arith
and_then_if ms (some ids) ih = ih ids

check_messages-events :
    (ms : List Value) (ids : List Text)
    → outcome (check_messages ms ids)
      ≡ (if all_roles ms then run_events (events_of ms) ids else none)
unfolding check_messages events_of
check_messages-events [] ids = unfold run_events in refl
check_messages-events (m ∷ ms) ids = elim (Bool-cases (has_role m)) [
  | inl ok ↦
      rw (ok, outcome-go_on, run_events-append, check_parts-events)
        (and_then_if ms _ (check_messages-events ms))
  | inr wrong ↦ rw wrong
]

all_roles_iff : (ms : List Value) → (all_roles ms ≡ true) ↔ HasRoles ms
all_roles_iff [] = (λ e. tt, λ h. refl)
all_roles_iff (m ∷ ms) = (
  λ e. (ground arith, (all_roles_iff ms).0 (ground arith)),
  λ (r, h). rw (r, (all_roles_iff ms).1 h),
)

at_end_iff : (p : Progress) → (at_end p ≡ none) ↔ (outcome p ≡ some [])
at_end_iff (bad why) = (λ e. cc, λ e. cc)
at_end_iff (pending []) = (λ e. refl, λ e. refl)
at_end_iff (pending (id ∷ ids)) = (λ e. cc, λ e. cc)

abbrev pub IsWellFormed : List Value → Type 0
IsWellFormed ms = HasRoles ms × ((id : Text) → is_paired id false (events_of ms) ≡ true)

at_end-check_messages_iff :
    (ms : List Value) → (at_end (check_messages ms []) ≡ none) ↔ IsWellFormed ms
at_end-check_messages_iff ms =
    let (to, from) = at_end_iff (check_messages ms []) in
    let (to_pairs, from_pairs) = run_events_iff (events_of ms) [] in
    let loop = check_messages-events ms [] in
    elim (Bool-cases (all_roles ms)) [
      | inl ok ↦ (
        λ e.
            let ends : run_events (events_of ms) [] ≡ some [] = sym (rw ok at loop) ∙ to e in
            ((all_roles_iff ms).0 ok, unfold has in to_pairs ends),
        λ (roles, pairs). from ((rw ok at loop) ∙ from_pairs (unfold has in pairs)),
      )
      | inr wrong ↦ (
        λ e. cc (sym (rw wrong at loop) ∙ to e),
        λ (roles, pairs). cc (wrong, (all_roles_iff ms).1 roles),
      )
    ]

refusal_of_iff :
    (o : Option (List Value))
    → (refusal_of o ≡ none)
      ↔ ((m : Value) × (ms : List Value) × (o ≡ some (m ∷ ms)) × IsWellFormed (m ∷ ms))
refusal_of_iff none = (λ e. cc, λ (m, ms, e, h). cc)
refusal_of_iff (some []) = (λ e. cc, λ (m, ms, e, h). cc)
refusal_of_iff (some (m ∷ ms)) =
    let (to, from) = at_end-check_messages_iff (m ∷ ms) in
    (
      λ e. (m, ms, refl, to e),
      λ (n, ns, e, h). let same : n ∷ ns ≡ m ∷ ms = cc in from (subst IsWellFormed same h),
    )

-- A list that `prepareMessages` returns is accepted exactly if it is an array that is not empty, every
-- message has the role user, assistant or tool, and for each id the tool calls of the assistant and
-- the tool results take turns, from a call to a result: a result follows a call that has none yet, and
-- no call is left without one. (Calls that repeat an id before its result count as one.)
pub prepared_refusal-none_iff :
    (v : Value)
    → (prepared_refusal v ≡ none)
      ↔ ((m : Value) × (ms : List Value) × (elements v ≡ some (m ∷ ms)) × IsWellFormed (m ∷ ms))
unfolding prepared_refusal
prepared_refusal-none_iff v = refusal_of_iff (elements v)
