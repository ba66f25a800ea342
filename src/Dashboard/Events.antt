-- ===== src/Dashboard/Events.antt =====
-- The stream of events: web/src/pages/EventStreamPage.jsx; and the badge of a status:
-- web/src/components/StatusBadge.jsx.
pub mod Screen
use triggerlink.Prelude.{
  Bool, not, List, [], ◌∷◌, ◌++◌, Text, txt, ◌==◌, length, nat_eq, if◌then◌else◌, or_else,
}
use triggerlink.Prelude.Decimal.{print}
use triggerlink.Value.{Value}
use triggerlink.Execx.{Host}
use triggerlink.Dashboard.{Polled, initial, settle}
use triggerlink.Dashboard.Api.{Fetch, fetch_events}

pub record Event : Type 0 where
  pub id : Text
  pub name : Text
  pub body : Value  -- `data`
  pub received_at : Text
  pub runs : List Text

-- The state of the page: the filter, and what is polled.
pub record EventStream : Type 0 where
  pub name : Text
  pub polled : Polled (List Event)

abbrev pub opened : EventStream
opened = record { name = []; polled = initial }

abbrev pub set_name : Text → EventStream → EventStream
set_name name s = record s { name = name }

-- a tick, and its answer
unfoldable pub poll :
    Host
    → (encode_query : List (Text × Text) → Text) → Fetch (List Event)
    → EventStream
    → EventStream
poll host encode_query fetch s = record s {
  polled = settle (fetch_events host encode_query fetch ((txt "name", s.name) ∷ [])) s.polled;
}

abbrev pub events : EventStream → List Event
events s = or_else s.polled.shown []

-- a click on the row of an event, which opens and closes its data
abbrev pub toggle_row : (opened : Bool) → Bool
toggle_row opened = not opened

-- the text and the address of an event's link
unfoldable pub link_label : Event → Text
link_label e =
    txt "Triggered "
    ++ (print (length e.runs) ++ (txt " run" ++ (if nat_eq (length e.runs) 1 then [] else txt "s")))

abbrev pub link_address : Event → Text
link_address e = txt "/runs?event_id=" ++ e.id

-- the classes of a badge
pub record Style : Type 0 where
  pub dot : Text
  pub text : Text
  pub bg : Text

abbrev fallback : Style
fallback = record {
  dot = txt "bg-neutral-400";
  text = txt "text-neutral-300";
  bg = txt "bg-neutral-500/10 border-neutral-700";
}

unfoldable pub style_of : Text → Style
style_of status =
    if status == txt "running"
    then record {
      dot = txt "bg-blue-400 animate-pulse";
      text = txt "text-blue-400";
      bg = txt "bg-blue-500/10 border-blue-800";
    }
    else if status == txt "completed"
    then record {
      dot = txt "bg-emerald-400";
      text = txt "text-emerald-400";
      bg = txt "bg-emerald-500/10 border-emerald-800";
    }
    else if status == txt "failed"
    then record {
      dot = txt "bg-red-400";
      text = txt "text-red-400";
      bg = txt "bg-red-500/10 border-red-800";
    }
    else if status == txt "cancelled"
    then record {
      dot = txt "bg-zinc-500";
      text = txt "text-zinc-400";
      bg = txt "bg-zinc-500/10 border-zinc-700";
    }
    else fallback
