-- ===== src/Tests/Choosing.antt =====
-- A page whose polling follows a choice.
use triggerlink.Prelude.{◌≡◌, refl, ◌⊎◌, none, some, [], ◌∷◌, Text, txt}
use triggerlink.Effects.{Outcome, returned, threw}
use triggerlink.Dashboard.Queries
use triggerlink.Dashboard.Queries.{
  Querying, choose, take_answer, Steps, start, next, answered, tick, AreCurrent, IsCurrent,
  Steps-IsCurrent,
}

-- the platform echoes what it is asked for
abbrev Echoes : Text → Outcome Text → Type 0
Echoes q (returned d) = d ≡ q
Echoes q (threw e) = Unit

abbrev page : Querying Text Text
page = Queries.opened (txt "a")

abbrev answered_page : Querying Text Text
answered_page = take_answer (returned (txt "a")) (txt "a" ∷ []) (Queries.begin_request page)

until_answered : Steps Echoes page answered_page
until_answered =
    next (next start tick) (answered (txt "a") [] (txt "a" ∷ []) (returned (txt "a")) refl refl)

steps-IsCurrent_example :
    (txt "a" ≡ txt "a")
    × AreCurrent Echoes answered_page
    × ((answered_page.polled.shown ≡ none) ⊎ IsCurrent Echoes answered_page)
steps-IsCurrent_example = Steps-IsCurrent Echoes (refl, tt) until_answered

-- An answer to an earlier choice, where it comes last, is what is shown.
stale_choice_test :
    (take_answer
      (returned (txt "a"))
      []
      (take_answer (returned (txt "b")) (txt "a" ∷ []) (choose (txt "b") page))).polled.shown
    ≡ some (txt "a")
stale_choice_test = refl
