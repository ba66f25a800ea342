-- ===== src/Value.antt =====
-- The values of the host language that the SDK passes around without a static type (`unknown`),
-- and what the code reads of them.
use triggerlink.Prelude.{
  ℕ, zero, suc, ◌+◌, ◌-◌, Bool, true, false, Text, leb, if◌then◌else◌, ◌==◌, [],
}

-- A JavaScript number: NaN, an infinity (negative or not), or an integer. `neg n` is -(n + 1).
-- Fractions are left out, and integers are exact.
pub data Number : Type 0 where
  nan : Number
  infinite : (negative : Bool) → Number
  nat : ℕ → Number
  neg : ℕ → Number

mutual
  pub data Value : Type 0 where
    undefined : Value
    null : Value
    bool : Bool → Value
    num : Number → Value
    str : Text → Value
    arr : Values → Value
    obj : Fields → Value

  pub data Values : Type 0 where
    nil : Values
    cons : Value → Values → Values

  pub data Fields : Type 0 where
    end : Fields
    field : Text → Value → Fields → Fields

-- `v == null`, true of `undefined` too.
abbrev pub is_nullish : Value → Bool
is_nullish undefined = true
is_nullish null = true
is_nullish v = false

-- What `if (v)` tests.
abbrev pub truthy : Value → Bool
truthy undefined = false
truthy null = false
truthy (bool b) = b
truthy (num nan) = false
truthy (num (nat zero)) = false
truthy (str []) = false
truthy v = true

find_field : Text → Fields → Value
find_field k end = undefined
find_field k (field j v fs) = if j == k then v else find_field k fs

-- `v?.k`, of a name that no prototype has.
unfoldable pub prop : Text → Value → Value
unfolding find_field
prop k (obj fs) = find_field k fs
prop k v = undefined

-- Number.isFinite
abbrev pub is_finite : Number → Bool
is_finite nan = false
is_finite (infinite negative) = false
is_finite n = true

-- `n <= 0`
abbrev pub is_nonpositive : Number → Bool
is_nonpositive nan = false
is_nonpositive (infinite negative) = negative
is_nonpositive (nat zero) = true
is_nonpositive (nat (suc n)) = false
is_nonpositive (neg n) = true

-- a - b of two natural numbers
abbrev sub_ℕ : ℕ → ℕ → Number
sub_ℕ a b = if leb b a then nat (a - b) else neg (b - a - 1)

-- `a + b`
unfoldable pub add : Number → Number → Number
add nan b = nan
add (infinite m) nan = nan
add (infinite true) (infinite true) = infinite true
add (infinite false) (infinite false) = infinite false
add (infinite m) (infinite n) = nan
add (infinite m) b = infinite m
add (nat a) nan = nan
add (nat a) (infinite n) = infinite n
add (nat a) (nat b) = nat (a + b)
add (nat a) (neg b) = sub_ℕ a (b + 1)
add (neg a) nan = nan
add (neg a) (infinite n) = infinite n
add (neg a) (nat b) = sub_ℕ b (a + 1)
add (neg a) (neg b) = neg (a + b + 1)
