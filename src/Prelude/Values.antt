-- ===== src/Prelude/Values.antt =====
-- Python's values as json.loads and json.dumps know them, dicts, and what `str`, `int` and a truth
-- test make of the three types that a control-store item holds.
use Prim.Native.Nat.{ℕ, zero, suc, ◌+◌, ◌*◌, ◌-◌, ◌/◌, ◌%◌}
use Prim.Native.Char.{Char, code}
use Prim.Native.String.{String, slice, ◌++◌}
use mathlib.Core.Bool.{Bool, true, false, not, ◌&&◌}
use mathlib.Core.Option.{Option, none, some}
use mathlib.Core.List.{List}
use mathlib.Core.Path.{◌≡◌, refl}
use aws_devops_sdet_demo.Prelude.Tests.{◌==◌, leb, ltb, if◌then◌else◌}
use aws_devops_sdet_demo.Prelude.Int.{ℤ, pos, negsuc}

-- `real` is a float, by the integer that it equals, if there is one. The keys of a dict are distinct.
mutual
  pub data Value : Type 0 where
    null : Value
    bool : Bool → Value
    int : ℤ → Value
    real : Option ℤ → Value
    str : String → Value
    array : Items → Value
    object : Fields → Value

  pub data Items : Type 0 where
    nil : Items
    cons : Value → Items → Items

  pub data Fields : Type 0 where
    end : Fields
    field : String → Value → Fields → Fields

-- `d.get(key)`: None where the key is missing.
abbrev pub get : String → Fields → Value
get key end = null
get key (field k v rest) = if k == key then v else get key rest

-- `d[key]`, or none where the key is missing.
abbrev pub get? : String → Fields → Option Value
get? key end = none
get? key (field k v rest) = if k == key then some v else get? key rest

-- The truth of a value.
abbrev pub value_true : Value → Bool
value_true null = false
value_true (bool b) = b
value_true (int (pos zero)) = false
value_true (int n) = true
value_true (real (some (pos zero))) = false
value_true (real n) = true
value_true (str s) = not (s == "")
value_true (array nil) = false
value_true (array (cons v rest)) = true
value_true (object end) = false
value_true (object (field k v rest)) = true

-- A dict whose values have one type.
abbrev pub Dict {ℓ} : Type ℓ → Type ℓ
Dict A = List (String × A)

module _ {ℓ} {A : Type ℓ} where
  abbrev pub lookup : String → Dict A → Option A
  lookup key List.[] = none
  lookup key (List.◌∷◌ (k, v) rest) = if k == key then some v else lookup key rest

-- The values of an item of the control store, as `_plain` leaves them.
pub data Scalar : Type 0 where
  string : String → Scalar
  number : ℤ → Scalar
  boolean : Bool → Scalar

abbrev pub Item : Type 0
Item = Dict Scalar

-- `item.get(key)`, as a value of a reply.
abbrev pub scalar_value : Option Scalar → Value
scalar_value none = null
scalar_value (some (string s)) = str s
scalar_value (some (number n)) = int n
scalar_value (some (boolean b)) = bool b

digits_of : ℕ → ℕ → String → String
digits_of zero n acc = acc
digits_of (suc fuel) n acc =
    let shown = slice "0123456789" (n % 10) (n % 10 + 1) ++ acc in
    let rest = digits_of fuel (n / 10) shown in if ltb n 10 then shown else rest

-- `str(n)`
unfoldable pub decimal : ℕ → String
unfolding digits_of
decimal n = digits_of (suc n) n ""

unfoldable pub decimal_ℤ : ℤ → String
unfolding decimal
decimal_ℤ (pos n) = decimal n
decimal_ℤ (negsuc n) = "-" ++ decimal (suc n)

-- `str(v)`
unfoldable pub scalar_str : Scalar → String
unfolding decimal_ℤ
scalar_str (string s) = s
scalar_str (number n) = decimal_ℤ n
scalar_str (boolean true) = "True"
scalar_str (boolean false) = "False"

is_digit : Char → Bool
is_digit c = leb b'0' (code c) && leb (code c) b'9'

parse_digits : ℕ → String → Option ℕ
unfolding is_digit
parse_digits acc String.[] = some acc
parse_digits acc (String.◌∷◌ c s) =
    let rest = parse_digits (acc * 10 + (code c - b'0')) s in if is_digit c then rest else none

parse_natural : String → Option ℕ
unfolding parse_digits
parse_natural String.[] = none
parse_natural (String.◌∷◌ c s) = parse_digits 0 (String.◌∷◌ c s)

negated : Option ℕ → Option ℤ
negated none = none
negated (some zero) = some (pos 0)
negated (some (suc n)) = some (negsuc n)

positive : Option ℕ → Option ℤ
positive none = none
positive (some n) = some (pos n)

-- `int(s)` of a text: ASCII digits behind one sign at most; none is the ValueError. The blanks and
-- underscores that Python also takes are refused here.
unfoldable pub parse_int : String → Option ℤ
unfolding parse_natural negated positive
parse_int String.[] = none
parse_int (String.◌∷◌ c s) =
    if String.◌∷◌ c String.[] == "-"
    then negated (parse_natural s)
    else if String.◌∷◌ c String.[] == "+"
    then positive (parse_natural s)
    else positive (parse_natural (String.◌∷◌ c s))

-- `int(item[key])`; none is the KeyError and the ValueError.
unfoldable pub scalar_int : Option Scalar → Option ℤ
unfolding parse_int
scalar_int none = none
scalar_int (some (string s)) = parse_int s
scalar_int (some (number n)) = some n
scalar_int (some (boolean true)) = some (pos 1)
scalar_int (some (boolean false)) = some (pos 0)

-- The truth of `item.get(key)`.
unfoldable pub is_true : Option Scalar → Bool
is_true none = false
is_true (some (string s)) = not (s == "")
is_true (some (number (pos zero))) = false
is_true (some (number n)) = true
is_true (some (boolean b)) = b

decimal_runs : decimal 1075 ≡ "1075"
unfolding decimal
decimal_runs = refl

parse_runs : parse_int "-305" ≡ some (negsuc 304)
unfolding parse_int
parse_runs = refl
