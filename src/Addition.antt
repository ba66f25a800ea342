-- ===== src/Addition.antt =====
-- JavaScript's `+` of two values, which sdk-ts/src/agent.ts makes of the usage of model calls.
use triggerlink.Prelude.{Bool, true, false, ◌||◌, Text, txt, [], ◌∷◌, ◌++◌, if◌then◌else◌}
use triggerlink.Value.{
  Number, nan, nat, add, Value, Values, nil, cons, undefined, null, bool, num, str, arr, obj,
  is_nullish,
}
use triggerlink.Duration.{print_number}

-- `String(v)`; an array is its entries with commas between, and no text for one that is null or undefined
unfoldable mutual
  pub shown_value : Value → Text
  shown_value undefined = txt "undefined"
  shown_value null = txt "null"
  shown_value (bool true) = txt "true"
  shown_value (bool false) = txt "false"
  shown_value (num n) = print_number n
  shown_value (str s) = s
  shown_value (arr vs) = joined vs
  shown_value (obj fs) = txt "[object Object]"

  joined : Values → Text
  joined nil = []
  joined (cons v vs) =
      let first = shown_value v in
      let rest = joined_after vs in (if is_nullish v then [] else first) ++ rest

  joined_after : Values → Text
  joined_after nil = []
  joined_after (cons v vs) =
      let first = shown_value v in
      let rest = joined_after vs in b',' ∷ ((if is_nullish v then [] else first) ++ rest)

-- texts, and what is made one before it is added
abbrev is_textual : Value → Bool
is_textual (str s) = true
is_textual (arr vs) = true
is_textual (obj fs) = true
is_textual v = false

-- `Number(v)` of the others
abbrev numeric : Value → Number
numeric null = nat 0
numeric (bool true) = nat 1
numeric (bool false) = nat 0
numeric (num n) = n
numeric v = nan

unfoldable pub plus : Value → Value → Value
plus a b =
    if is_textual a || is_textual b
    then str (shown_value a ++ shown_value b)
    else num (add (numeric a) (numeric b))
