-- ===== src/Base/Json.antt =====
-- The values that the JSON parser delivers. Numbers below zero are left out; a float is written as a
-- numerator and a denominator. The members of an object have distinct names.
use Prim.Native.Nat.{ℕ, ◌*◌}
use mathlib.Core.Bool.{Bool, false}
use mathlib.Core.Option.{Option, none, some}
use miry_data_collector.Base.Tests.{if◌then◌else◌, ◌==◌}
use miry_data_collector.Base.Text.{Text, text_eq}

mutual
  pub data Value : Type 0 where
    null : Value
    boolean : Bool → Value
    integer : ℕ → Value
    real : ℕ → ℕ → Value
    string : Text → Value
    array : Elements → Value
    object : Members → Value

  pub data Elements : Type 0 where
    no_elements : Elements
    element : Value → Elements → Elements

  pub data Members : Type 0 where
    no_members : Members
    member : Text → Value → Members → Members

-- `d.get(name)`
abbrev pub get : Text → Members → Value
get name no_members = null
get name (member n v members) = if text_eq n name then v else get name members

-- The value where `isinstance(v, int)`: a bool is a number, too.
abbrev pub int_of : Value → Option ℕ
int_of (integer n) = some n
int_of (boolean b) = some (if b then 1 else 0)
int_of _ = none

-- The value where `isinstance(v, int) and not isinstance(v, bool)`
abbrev pub plain_int_of : Value → Option ℕ
plain_int_of (integer n) = some n
plain_int_of _ = none

abbrev pub elements_of : Value → Option Elements
elements_of (array elements) = some elements
elements_of _ = none

abbrev pub members_of : Value → Option Members
members_of (object members) = some members
members_of _ = none

-- `v == n`
abbrev pub equals_int : ℕ → Value → Bool
equals_int n (integer m) = m == n
equals_int n (boolean b) = (if b then 1 else 0) == n
equals_int n (real a b) = a == n * b
equals_int n _ = false
