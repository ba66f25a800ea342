-- ===== src/Dashboard.antt =====
-- The dashboard's polling: web/src/usePolling.js, and its use for one run in
-- web/src/pages/RunDetailPage.jsx.
pub mod Polling
pub mod Queries
pub mod Api
pub mod Runs
pub mod Timeline
pub mod Actions
pub mod Functions
pub mod Events
pub mod Json
pub mod Screen
pub mod App
use triggerlink.Prelude.{
  ℕ, zero, suc, ◌+◌, ◌≡◌, Option, none, some, Bool, true, false, not, ◌||◌, Text, txt, ◌==◌,
}
use triggerlink.Execx.{Thrown}
use triggerlink.Effects.{Outcome, returned, threw}

-- The state of the hook.
pub record Polled (A : Type 0) : Type 0 where
  pub shown : Option A
  pub error : Option Thrown
  pub offline : Bool

abbrev pub initial : {A : Type 0} → Polled A
initial = record { shown = none; error = none; offline = false }

-- the end of `tick`
abbrev pub settle : {A : Type 0} → Outcome A → Polled A → Polled A
settle (returned d) p = record { shown = some d; error = none; offline = false }
settle (threw e) p = record p { error = some e; offline = true }

-- `ACTIVE.has(status)`
unfoldable pub is_active : Text → Bool
is_active status = status == txt "queued" || status == txt "running"

-- The page of one run: what it polls, whether a run that has ended was seen, and the requests that are
-- on their way.
pub record Detail (A : Type 0) : Type 0 where
  pub polled : Polled A
  pub terminal : Bool
  pub in_flight : ℕ

abbrev pub opened : {A : Type 0} → Detail A
opened = record { polled = initial; terminal = false; in_flight = 0 }

-- the effect of a new id in the address; the requests that are on their way stay
abbrev pub renamed : {A : Type 0} → Detail A → Detail A
renamed s = record s { terminal = false }

module _ {A : Type 0} (status_of : A → Text) where
  -- an answer shows a run that has ended
  abbrev pub is_final : Outcome A → Bool
  is_final (threw e) = false
  is_final (returned d) = not (is_active (status_of d))

  abbrev pub receive : Outcome A → Detail A → Detail A
  receive answer s = record s {
    polled = settle answer s.polled;
    terminal = s.terminal || is_final answer;
  }

  -- The polling: a tick begins, where the page still polls; or a request is answered, in any order.
  pub data Polls : Detail A → Detail A → Type 0 where
    tick : {s : Detail A} → s.terminal ≡ false → Polls s (record s { in_flight = suc s.in_flight })
    answered :
        {s : Detail A} {n : ℕ} (answer : Outcome A)
        → s.in_flight ≡ suc n
        → Polls s (receive answer (record s { in_flight = n }))

  -- A step of the page: of its polling, or to the address of another run.
  pub data Step : Detail A → Detail A → Type 0 where
    polling : {s t : Detail A} → Polls s t → Step s t
    moved : {s : Detail A} → Step s (renamed s)

  -- so many steps
  pub data Steps : ℕ → Detail A → Detail A → Type 0 where
    start : {s : Detail A} → Steps 0 s s
    next : {n : ℕ} {s t u : Detail A} → Steps n s t → Step t u → Steps (suc n) s u
