-- ===== src/Tests/Toggling.antt =====
-- Two functions, of which one is paused.
use triggerlink.Prelude.{◌≡◌, refl, none, List, [], ◌∷◌, Text, txt, false, true, ◌==◌}
use triggerlink.Prelude.Decimal.{print}
use triggerlink.Value.{null}
use triggerlink.Effects.{returned}
use triggerlink.Dashboard.Api.{Fetch}
use triggerlink.Dashboard.Functions.{
  FunctionRow, FunctionList, toggle, opened, functions, rate, begin_toggle, end_toggle, is_disabled,
}
use triggerlink.Dashboard.Functions.Toggling.{Platform, set_paused, functions-toggle}
use triggerlink.Tests.Sample.{host}

abbrev row : Text → FunctionRow
row id = record {
  id = id;
  event = txt "e";
  flow_control = [];
  app_url = txt "http://localhost:3000";
  paused = false;
  stats = record { total = 200; completed = 199; failed = 1 };
}

abbrev list : List FunctionRow → Fetch (List FunctionRow)
list rows method url = returned (record { status = 200; json = returned rows })

-- the platform, where the request is about `f`
abbrev platform : Platform
platform method url rows =
    (returned (record { status = 200; json = returned null }), set_paused (txt "f") true rows)

abbrev rows : List FunctionRow
rows = row (txt "f") ∷ row (txt "g") ∷ []

toggle_test :
    functions (
      end_toggle host
        (list (set_paused (txt "f") true rows))
        (row (txt "f"))
        (returned null)
        (begin_toggle (row (txt "f")) opened))
    ≡ record (row (txt "f")) { paused = true } ∷ row (txt "g") ∷ []
unfolding end_toggle ◌==◌ triggerlink.Dashboard.Api.call
toggle_test = refl

-- The label rounds up to all.
rate_test : rate (record { total = 200; completed = 199; failed = 1 }) ≡ txt "100%"
unfolding rate print
rate_test = refl

-- Two clicks on two rows: the answer to the first enables the button of the second, whose request is still on
-- its way.
abbrev two_clicked : FunctionList
two_clicked = begin_toggle (row (txt "g")) (begin_toggle (row (txt "f")) opened)

enabled_test :
    is_disabled
      (end_toggle host (list rows) (row (txt "f")) (returned null) two_clicked)
      (row (txt "g"))
    ≡ false
unfolding end_toggle
enabled_test = refl

functions-toggle_example :
    let t =
      toggle host
        (λ id. id)
        (λ method url. (platform method url rows).0)
        (list (set_paused (txt "f") true rows))
        (row (txt "f"))
        opened in
    (functions t ≡ set_paused (txt "f") true rows) × (t.pending ≡ none) × (t.action_error ≡ none)
functions-toggle_example =
    functions-toggle host (λ id. id) platform list rows (row (txt "f")) opened
      (record { reply = null; toggles = refl; lists = λ after. refl })
