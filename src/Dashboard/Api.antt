-- ===== src/Dashboard/Api.antt =====
-- web/src/api.js: the calls of the platform's API that the pages of the dashboard make.
use triggerlink.Prelude.{ℕ, List, [], ◌∷◌, ◌++◌, Text, txt, leb, is_empty, ◌&&◌, if◌then◌else◌}
use triggerlink.Prelude.Decimal.{print}
use triggerlink.Execx.{Host}
use triggerlink.Effects.{Outcome, returned, threw, new_error}

pub data Method : Type 0 where
  read write : Method  -- GET and POST

-- A response, with what reading its body as JSON comes to.
pub record Answer (A : Type 0) : Type 0 where
  pub status : ℕ
  pub json : Outcome A

-- `fetch`, at one time: a response, or a throw
abbrev pub Fetch : Type 0 → Type 0
Fetch A = Method → (url : Text) → Outcome (Answer A)

abbrev pub base : Text
base = txt "/api/v1"

abbrev name_of : Method → Text
name_of read = txt "GET "
name_of write = txt "POST "

module _ (host : Host) {A : Type 0} where
  -- what `get` and `post` make of a response
  unfoldable pub conclude : Method → Text → Outcome (Answer A) → Outcome A
  conclude method path (threw e) = threw e
  conclude method path (returned resp) =
      if leb 200 resp.status && leb resp.status 299
      then resp.json
      else threw (new_error host (name_of method ++ (path ++ (txt ": " ++ print resp.status))))

  -- `get` and `post`
  unfoldable pub call : Fetch A → Method → Text → Outcome A
  unfolding conclude
  call fetch method path = conclude method path (fetch method (base ++ path))

-- the parameters that `qs` keeps
unfoldable pub qs : List (Text × Text) → List (Text × Text)
qs [] = []
qs ((k, v) ∷ params) = let rest = qs params in if is_empty v then rest else (k, v) ∷ rest

-- `encode_query` is how URLSearchParams prints pairs, and `encode` is encodeURIComponent.
module _ (host : Host) (encode_query : List (Text × Text) → Text) {A : Type 0}
    (fetch : Fetch A) where
  abbrev pub fetch_runs : List (Text × Text) → Outcome A
  fetch_runs params = call host fetch read (txt "/runs?" ++ encode_query (qs params))

  abbrev pub fetch_events : List (Text × Text) → Outcome A
  fetch_events params = call host fetch read (txt "/events?" ++ encode_query (qs params))

module _ (host : Host) {A : Type 0} (fetch : Fetch A) where
  abbrev pub fetch_run : Text → Outcome A
  fetch_run id = call host fetch read (txt "/runs/" ++ id)

  abbrev pub cancel_run : Text → Outcome A
  cancel_run id = call host fetch write (txt "/runs/" ++ (id ++ txt "/cancel"))

  abbrev pub replay_run : Text → Outcome A
  replay_run id = call host fetch write (txt "/runs/" ++ (id ++ txt "/replay"))

  abbrev pub fetch_functions : Outcome A
  fetch_functions = call host fetch read (txt "/functions")

  abbrev pub pause_function : (encode : Text → Text) → Text → Outcome A
  pause_function encode id =
      call host fetch write (txt "/functions/" ++ (encode id ++ txt "/pause"))

  abbrev pub resume_function : (encode : Text → Text) → Text → Outcome A
  resume_function encode id =
      call host fetch write (txt "/functions/" ++ (encode id ++ txt "/resume"))
