-- ===== src/Messages.antt =====
-- Conversation messages of sdk-ts/src/agent.ts: the shape that `prepareMessages` must keep
-- (assertPreparedMessagesShape), and the last text of the assistant.
pub mod Pairing
pub mod Answering
use triggerlink.Prelude.{
  Option, none, some, List, [], ◌∷◌, ◌++◌, Bool, true, false, not, ◌&&◌, ◌||◌, Text, txt, ◌==◌,
  is_empty, if◌then◌else◌, map,
}
use mathlib.Core.List.{reverse}
use triggerlink.Value.{
  Value, undefined, null, bool, num, str, arr, obj, Values, nil, cons, prop, truthy,
}

abbrev pub items : Values → List Value
items nil = []
items (cons v vs) = v ∷ items vs

-- `Array.isArray(v)`, with the elements
abbrev pub elements : Value → Option (List Value)
elements (arr vs) = some (items vs)
elements v = none

-- `v === s`
abbrev pub is_text : Value → Text → Bool
is_text (str t) s = t == s
is_text v s = false

-- What a part of a message says about tool calls.
pub data Event : Type 0 where
  call result : Text → Event

abbrev event_for : Value → Bool → Bool → Option Event
event_for (str id) true is_result = some (call id)
event_for (str id) false true = some (result id)
event_for v is_call is_result = none

-- the two tests on a part; a message has one role
unfoldable pub part_event : (role part : Value) → Option Event
part_event role part =
    event_for (prop (txt "toolCallId") part)
      (is_text role (txt "assistant") && is_text (prop (txt "type") part) (txt "tool-call"))
      (is_text role (txt "tool") && is_text (prop (txt "type") part) (txt "tool-result"))

-- A set of ids in order of insertion: `has`, `add`, `delete`.
unfoldable pub has : Text → List Text → Bool
has id [] = false
has id (x ∷ xs) = x == id || has id xs

unfoldable pub include : Text → List Text → List Text
unfolding has
include id xs = if has id xs then xs else xs ++ id ∷ []

unfoldable pub exclude : Text → List Text → List Text
exclude id [] = []
exclude id (x ∷ xs) = let rest = exclude id xs in if x == id then rest else x ∷ rest

-- What a loop goes on with: the pending ids, or the reason why the list is refused.
pub data Progress : Type 0 where
  pending : List Text → Progress
  bad : Text → Progress

pub unpaired : Text → Text
unpaired id = txt "tool-result \"" ++ (id ++ txt "\" has no preceding assistant tool-call")

abbrev on_event : Option Event → List Text → Progress
on_event none ids = pending ids
on_event (some (call id)) ids = pending (include id ids)
on_event (some (result id)) ids = if has id ids then pending (exclude id ids) else bad (unpaired id)

-- the loop after a round: a throw ends it
abbrev go_on : Progress → (List Text → Progress) → Progress
go_on (bad why) rest = bad why
go_on (pending ids) rest = rest ids

unfoldable pub check_parts : Value → List Value → List Text → Progress
check_parts role [] ids = pending ids
check_parts role (part ∷ parts) ids =
    go_on (on_event (part_event role part) ids) (check_parts role parts)

-- a content that is a text has no parts
abbrev pub parts_of : Value → List Value
parts_of content = elim (elements content) [ none ↦ [] | some parts ↦ parts ]

abbrev pub has_role : Value → Bool
has_role m =
    is_text (prop (txt "role") m) (txt "user")
    || is_text (prop (txt "role") m) (txt "assistant")
    || is_text (prop (txt "role") m) (txt "tool")

unfoldable pub check_messages : List Value → List Text → Progress
check_messages [] ids = pending ids
check_messages (m ∷ ms) ids =
    if has_role m
    then go_on (check_parts (prop (txt "role") m) (parts_of (prop (txt "content") m)) ids)
        (check_messages ms)
    else bad
        (txt "roles must be \"user\" | \"assistant\" | \"tool\" (system lives in AgentOpts.system)")

-- ids.join(", ")
pub join_ids : List Text → Text
join_ids [] = []
join_ids (id ∷ []) = id
join_ids (id ∷ ids) = id ++ (txt ", " ++ join_ids ids)

abbrev at_end : Progress → Option Text
at_end (bad why) = some why
at_end (pending []) = none
at_end (pending (id ∷ ids)) =
    some (txt "assistant tool-call(s) without tool-result: " ++ join_ids (id ∷ ids))

-- The reason why a list of messages is refused, if it is.
abbrev refusal_of : Option (List Value) → Option Text
refusal_of none = some (txt "must be a non-empty array")
refusal_of (some []) = some (txt "must be a non-empty array")
refusal_of (some (m ∷ ms)) = at_end (check_messages (m ∷ ms) [])

unfoldable pub prepared_refusal : Value → Option Text
prepared_refusal v = refusal_of (elements v)

-- `p.text`, as `join` shows a text or what is missing
abbrev shown : Value → Text
shown (str s) = s
shown v = []

-- p.text of the parts of type "text", joined
unfoldable pub text_parts : List Value → Text
text_parts [] = []
text_parts (p ∷ ps) =
    let rest = text_parts ps in
    if is_text (prop (txt "type") p) (txt "text") then shown (prop (txt "text") p) ++ rest else rest

-- the text of one message of the assistant
abbrev pub content_text : Value → Text
content_text (str s) = s
content_text content = text_parts (parts_of content)

-- The loop of lastAssistantTextMessageContent, over the messages from the last to the first.
unfoldable pub last_text : List Value → Option Text
unfolding text_parts
last_text [] = none
last_text (m ∷ ms) =
    let rest = last_text ms in
    if is_text (prop (txt "role") m) (txt "assistant")
    then some (content_text (prop (txt "content") m))
    else rest

unfoldable pub last_assistant_text : List Value → Option Text
unfolding last_text
last_assistant_text output = last_text (reverse output)
