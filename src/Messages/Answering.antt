-- ===== src/Messages/Answering.antt =====
-- The last text of the assistant: lastAssistantTextMessageContent of sdk-ts/src/agent.ts.
use triggerlink.Prelude.{
  ◌≡◌, refl, sym, ◌∙◌, ap, subst, some, none, List, [], ◌∷◌, ◌++◌, true, false, append-nil,
  append_assoc, Text, txt, All, All-append,
}
use mathlib.Core.List.{reverse, reverse-append, reverse-cons}
use triggerlink.Value.{Value, prop}
use triggerlink.Messages.{is_text, content_text, last_text, last_assistant_text}

abbrev pub IsAssistant : Value → Type 0
IsAssistant m = is_text (prop (txt "role") m) (txt "assistant") ≡ true

abbrev pub IsOther : Value → Type 0
IsOther m = is_text (prop (txt "role") m) (txt "assistant") ≡ false

abbrev pub text_of : Value → Text
text_of m = content_text (prop (txt "content") m)

last_text-skip :
    (others ms : List Value) → All IsOther others → last_text (others ++ ms) ≡ last_text ms
unfolding last_text
last_text-skip [] ms skip = refl
last_text-skip (o ∷ others) ms (here, skip) = rw here (last_text-skip others ms skip)

reverse-IsOther : (ms : List Value) → All IsOther ms → All IsOther (reverse ms)
reverse-IsOther [] others = tt
reverse-IsOther (m ∷ ms) (here, others) =
    subst (All IsOther) (sym (reverse-cons m ms))
      (All-append IsOther (reverse ms) (m ∷ []) (reverse-IsOther ms others) (here, tt))

backwards :
    (before : List Value) (m : Value) (after : List Value)
    → reverse (before ++ m ∷ after) ≡ reverse after ++ m ∷ reverse before
backwards before m after =
    reverse-append before (m ∷ after)
    ∙ ap (λ l. l ++ reverse before) (reverse-cons m after)
    ∙ append_assoc (reverse after) (m ∷ []) (reverse before)

pub last_assistant_text-IsAssistant :
    (before : List Value) (m : Value) (after : List Value)
    → IsAssistant m
    → All IsOther after
    → last_assistant_text (before ++ m ∷ after) ≡ some (text_of m)
unfolding last_assistant_text last_text
last_assistant_text-IsAssistant before m after assistant others =
    ap last_text (backwards before m after)
    ∙ last_text-skip (reverse after) (m ∷ reverse before) (reverse-IsOther after others)
    ∙ rw assistant

pub last_assistant_text-IsOther : (ms : List Value) → All IsOther ms → last_assistant_text ms ≡ none
unfolding last_assistant_text last_text
last_assistant_text-IsOther ms others =
    ap last_text (sym (append-nil (reverse ms)))
    ∙ last_text-skip (reverse ms) [] (reverse-IsOther ms others)
