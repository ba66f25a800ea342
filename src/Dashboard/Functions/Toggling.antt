-- ===== src/Dashboard/Functions/Toggling.antt =====
-- What a click on the button of a row of web/src/pages/FunctionListPage.jsx comes to.
use triggerlink.Prelude.{
  ◌≡◌, refl, none, List, [], ◌∷◌, ◌++◌, Bool, not, Text, txt, ◌==◌, if◌then◌else◌, Bool-cases, inl,
  inr,
}
use triggerlink.Execx.{Host}
use triggerlink.Effects.{returned}
use triggerlink.Value.{Value}
use triggerlink.Effects.{Outcome}
use triggerlink.Dashboard.Api.{Method, read, write, Answer, Fetch, base, call}
use triggerlink.Dashboard.Functions.{
  FunctionRow, FunctionList, functions, toggle_request, end_toggle, toggle,
}

-- The platform's functions after one of them is paused or resumed.
abbrev pub set_paused : Text → Bool → List FunctionRow → List FunctionRow
set_paused id paused [] = []
set_paused id paused (f ∷ rows) =
    let rest = set_paused id paused rows in
    if f.id == id then record f { paused = paused } ∷ rest else f ∷ rest

-- the address that a click on a row's button writes to
abbrev pub address : (encode : Text → Text) → FunctionRow → Text
address encode f =
    base
    ++ (txt "/functions/" ++ (encode f.id ++ (if f.paused then txt "/resume" else txt "/pause")))

-- A platform: what it answers and what its functions are after a request.
abbrev pub Platform : Type 0
Platform = Method → Text → List FunctionRow → Outcome (Answer Value) × List FunctionRow

-- It pauses and resumes a function by the addresses of the API, and lists its functions.
pub record IsPlatform (encode : Text → Text) (f : FunctionRow) (rows : List FunctionRow)
    (handle : Platform) (list : List FunctionRow → Fetch (List FunctionRow)) : Type 0 where
  pub reply : Value
  pub toggles : handle write (address encode f) rows ≡ (
    returned (record { status = 200; json = returned reply }),
    set_paused f.id (not f.paused) rows,
  )
  pub lists :
      (after : List FunctionRow)
      → list after read (base ++ txt "/functions")
        ≡ returned (record { status = 200; json = returned after })

toggle_request-accepted :
    (host : Host) (encode : Text → Text) (handle : Platform)
    (list : List FunctionRow → Fetch (List FunctionRow)) (rows : List FunctionRow) (f : FunctionRow)
    (p : IsPlatform encode f rows handle list)
    → toggle_request host encode (λ method url. (handle method url rows).0) f ≡ returned p.reply
unfolding toggle_request call
toggle_request-accepted host encode handle list rows f p = elim (Bool-cases f.paused) [
  | inl paused ↦ rw (paused, rw paused at p.toggles)
  | inr running ↦ rw (running, rw running at p.toggles)
]

-- A click on the button of a function pauses it if the page shows it as running, and resumes it if the page
-- shows it as paused; then the page shows the platform's functions with that one changed, no button is
-- disabled, and there is no error. The platform accepts the request and the one for the list.
pub functions-toggle :
    (host : Host) (encode : Text → Text) (handle : Platform)
    (list : List FunctionRow → Fetch (List FunctionRow)) (rows : List FunctionRow) (f : FunctionRow)
    (s : FunctionList)
    → IsPlatform encode f rows handle list
    → let now : Fetch Value = λ method url. (handle method url rows).0 in
      let after = list (handle write (address encode f) rows).1 in
      let t = toggle host encode now after f s in
      (functions t ≡ set_paused f.id (not f.paused) rows)
      × (t.pending ≡ none)
      × (t.action_error ≡ none)
unfolding toggle end_toggle call
functions-toggle host encode handle list rows f s p =
    let accepted = toggle_request-accepted host encode handle list rows f p in
    let listed = p.lists (set_paused f.id (not f.paused) rows) in
    rw (accepted, p.toggles, listed) (refl, refl, refl)
