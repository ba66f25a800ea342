-- ===== src/Stringify.antt =====
-- What JSON.stringify makes of a value: `Response.json` in the helper `json` of sdk-ts/src/serve.ts.
use triggerlink.Prelude.{◌≡◌, refl, ap, Text}
use triggerlink.Value.{
  Value, Values, nil, cons, Fields, end, field, undefined, null, bool, num, nan, infinite, nat, neg,
  str, arr, obj,
}

-- a field that JSON.stringify leaves out where its value is undefined
abbrev pub given : Text → Value → Fields → Fields
given k undefined fs = fs
given k v fs = field k v fs

-- an entry of an array is null where it is undefined
abbrev entry : Value → Value
entry undefined = null
entry v = v

-- The value that the text of JSON.stringify stands for, undefined where there is no text.
unfoldable mutual
  pub stringify : Value → Value
  stringify (num nan) = null
  stringify (num (infinite negative)) = null
  stringify (num (nat n)) = num (nat n)
  stringify (num (neg n)) = num (neg n)
  stringify (arr vs) = arr (stringify_values vs)
  stringify (obj fs) = obj (stringify_fields fs)
  stringify undefined = undefined
  stringify null = null
  stringify (bool b) = bool b
  stringify (str s) = str s

  stringify_values : Values → Values
  stringify_values nil = nil
  stringify_values (cons v vs) = cons (entry (stringify v)) (stringify_values vs)

  stringify_fields : Fields → Fields
  stringify_fields end = end
  stringify_fields (field k v fs) = given k (stringify v) (stringify_fields fs)

-- A value of JSON: its numbers are finite, and nothing in it is undefined.
unfoldable mutual
  pub IsJson : Value → Type 0
  IsJson undefined = ⊥
  IsJson (num nan) = ⊥
  IsJson (num (infinite negative)) = ⊥
  IsJson (num (nat n)) = Unit
  IsJson (num (neg n)) = Unit
  IsJson (arr vs) = AreJsonValues vs
  IsJson (obj fs) = AreJsonFields fs
  IsJson null = Unit
  IsJson (bool b) = Unit
  IsJson (str s) = Unit

  AreJsonValues : Values → Type 0
  AreJsonValues nil = Unit
  AreJsonValues (cons v vs) = IsJson v × AreJsonValues vs

  AreJsonFields : Fields → Type 0
  AreJsonFields end = Unit
  AreJsonFields (field k v fs) = IsJson v × AreJsonFields fs

given-IsJson : (k : Text) (v : Value) (fs : Fields) → IsJson v → given k v fs ≡ field k v fs
unfolding IsJson
given-IsJson k undefined fs h = absurd h
given-IsJson k null fs h = refl
given-IsJson k (bool b) fs h = refl
given-IsJson k (num n) fs h = refl
given-IsJson k (str s) fs h = refl
given-IsJson k (arr vs) fs h = refl
given-IsJson k (obj gs) fs h = refl

entry-IsJson : (v : Value) → IsJson v → entry v ≡ v
unfolding IsJson
entry-IsJson undefined h = absurd h
entry-IsJson null h = refl
entry-IsJson (bool b) h = refl
entry-IsJson (num n) h = refl
entry-IsJson (str s) h = refl
entry-IsJson (arr vs) h = refl
entry-IsJson (obj gs) h = refl

mutual
  unfolding stringify IsJson

  pub stringify-IsJson : (v : Value) → IsJson v → stringify v ≡ v
  stringify-IsJson undefined h = refl
  stringify-IsJson null h = refl
  stringify-IsJson (bool b) h = refl
  stringify-IsJson (num nan) h = absurd h
  stringify-IsJson (num (infinite negative)) h = absurd h
  stringify-IsJson (num (nat n)) h = refl
  stringify-IsJson (num (neg n)) h = refl
  stringify-IsJson (str s) h = refl
  stringify-IsJson (arr vs) h = ap arr (stringify_values-AreJson vs h)
  stringify-IsJson (obj fs) h = ap obj (stringify_fields-AreJson fs h)

  stringify_values-AreJson : (vs : Values) → AreJsonValues vs → stringify_values vs ≡ vs
  stringify_values-AreJson nil h = refl
  stringify_values-AreJson (cons v vs) (h, hs) =
      rw (stringify-IsJson v h, entry-IsJson v h, stringify_values-AreJson vs hs)

  stringify_fields-AreJson : (fs : Fields) → AreJsonFields fs → stringify_fields fs ≡ fs
  stringify_fields-AreJson end h = refl
  stringify_fields-AreJson (field k v fs) (h, hs) =
      rw (stringify-IsJson v h, stringify_fields-AreJson fs hs) (given-IsJson k v fs h)
