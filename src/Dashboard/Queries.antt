-- ===== src/Dashboard/Queries.antt =====
-- The polling of web/src/usePolling.js on a page that asks for what its user has chosen: the filters of
-- web/src/pages/RunListPage.jsx, the name in web/src/pages/EventStreamPage.jsx, the run of
-- web/src/pages/RunDetailPage.jsx. Requests are answered in any order.
use triggerlink.Prelude.{
  ◌≡◌, refl, subst, ◌⊎◌, inl, inr, some, List, [], ◌∷◌, ◌++◌, All, All-append, All-append_left,
  All-append_right,
}
use triggerlink.Effects.{Outcome, returned, threw}
use triggerlink.Dashboard.{Polled, initial, settle}

-- The page: what it asks for, what the hook holds, and what the requests on their way ask for.
pub record Querying (Q A : Type 0) : Type 0 where
  pub query : Q
  pub polled : Polled A
  pub in_flight : List Q

-- as the page opens, with its first tick
abbrev pub opened : {Q A : Type 0} → Q → Querying Q A
opened q = record { query = q; polled = initial; in_flight = q ∷ [] }

-- a tick: `fnRef.current` asks for what is chosen now
abbrev pub begin_request : {Q A : Type 0} → Querying Q A → Querying Q A
begin_request s = record s { in_flight = s.query ∷ s.in_flight }

-- a choice, and the tick of the effect whose dependency it changes
abbrev pub choose : {Q A : Type 0} → Q → Querying Q A → Querying Q A
choose q s = begin_request (record s { query = q })

-- an answer, whatever it was asked for
abbrev pub take_answer : {Q A : Type 0} → Outcome A → List Q → Querying Q A → Querying Q A
take_answer answer left s = record s { polled = settle answer s.polled; in_flight = left }

-- `Served` is what a request may be answered with.
module _ {Q A : Type 0} (Served : Q → Outcome A → Type 0) where
  -- a step while the choice stays
  pub data Step : Querying Q A → Querying Q A → Type 0 where
    tick : {s : Querying Q A} → Step s (begin_request s)
    answered :
        {s : Querying Q A} (q : Q) (before after : List Q) (answer : Outcome A)
        → s.in_flight ≡ before ++ q ∷ after
        → Served q answer
        → Step s (take_answer answer (before ++ after) s)

  pub data Steps : Querying Q A → Querying Q A → Type 0 where
    start : {s : Querying Q A} → Steps s s
    next : {s t u : Querying Q A} → Steps s t → Step t u → Steps s u

  -- No request on its way asks for something else.
  abbrev pub AreCurrent : Querying Q A → Type 0
  AreCurrent s = All (λ q. q ≡ s.query) s.in_flight

  -- What is shown answers the choice.
  abbrev pub IsCurrent : Querying Q A → Type 0
  IsCurrent s = (d : A) × (s.polled.shown ≡ some d) × Served s.query (returned d)

  -- from `s` on nothing was shown anew, or what is shown answers the choice
  record Follows (s t : Querying Q A) : Type 0 where
    same : t.query ≡ s.query
    current : AreCurrent t
    shown : (t.polled.shown ≡ s.polled.shown) ⊎ IsCurrent t

  settle-Follows :
      (s t : Querying Q A) (answer : Outcome A) (left : List Q)
      → Served t.query answer
      → (t.polled.shown ≡ s.polled.shown) ⊎ IsCurrent t
      → ((take_answer answer left t).polled.shown ≡ s.polled.shown)
        ⊎ IsCurrent (take_answer answer left t)
  settle-Follows s t (returned d) left served shown = inr (d, refl, served)
  settle-Follows s t (threw e) left served shown = shown

  Step-Follows : (s : Querying Q A) {t u : Querying Q A} → Follows s t → Step t u → Follows s u
  Step-Follows s {t} follows tick = record {
    same = follows.same;
    current = (refl, follows.current);
    shown = follows.shown;
  }
  Step-Follows s {t} follows (answered q before after answer e served) =
      let all = subst (All (λ q. q ≡ t.query)) e follows.current in
      let others = All-append_right _ before (q ∷ after) all in
      record {
        same = follows.same;
        current = All-append _ before after (All-append_left _ before (q ∷ after) all) others.1;
        shown =
            settle-Follows s t answer (before ++ after)
              (subst (λ r. Served r answer) others.0 served) follows.shown;
      }

  Steps-Follows : {s t : Querying Q A} → AreCurrent s → Steps s t → Follows s t
  Steps-Follows {s} current start = record { same = refl; current = current; shown = inl refl }
  Steps-Follows {s} current (next steps step) = Step-Follows s (Steps-Follows current steps) step

  -- From a state on in which no request is on its way that asks for an earlier choice, and while the choice
  -- stays: the page shows what it showed then, or an answer to the choice, in whatever order the requests are
  -- answered. So a page that has just opened shows no answer but one to its choice.
  pub Steps-IsCurrent :
      {s t : Querying Q A}
      → AreCurrent s
      → Steps s t
      → (t.query ≡ s.query) × AreCurrent t × ((t.polled.shown ≡ s.polled.shown) ⊎ IsCurrent t)
  Steps-IsCurrent current steps =
      let follows = Steps-Follows current steps in (follows.same, follows.current, follows.shown)
