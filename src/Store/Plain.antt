-- ===== src/Store/Plain.antt =====
-- What a row's condition says of the plain item that the store answers.
use aws_devops_sdet_demo.Prelude.{
  ℕ, ◌<◌, ℤ, pos, ◌<ℤ◌, ◌≤ℤ◌, leb_ℤ, ltb_ℤ, String, ◌≡◌, refl, true, false, not, ◌||◌, Option, none,
  some, [], ◌∷◌, Scalar, string, number, boolean, lookup, arith, eq_iff, is_some,
}
use aws_devops_sdet_demo.Control.Laws.{
  Table, is_alive, is_free, later, ended, counter, tally, shown,
}
use aws_devops_sdet_demo.Store.Client.{
  Attribute, S, N, bool_value, other, Row, Condition, attribute_exists, attribute_not_exists,
  greater, at_most, both, either, attribute, holds, IsDistinct, IsRow, compares, starting,
}
use aws_devops_sdet_demo.Store.Dynamodb.{plain, plain_row}

abbrev pub scalar : Option Attribute → Option Scalar
scalar none = none
scalar (some (S s)) = some (string s)
scalar (some (N n)) = some (number n)
scalar (some (bool_value b)) = some (boolean b)
scalar (some other) = none

lookup-plain_row :
    (k : String) (row : Row) → IsDistinct row → lookup k (plain_row row) ≡ scalar (lookup k row)
lookup-plain_row k [] d = refl
lookup-plain_row k ((a, S v) ∷ row) d = ground (arith, lookup-plain_row k row d.1)
lookup-plain_row k ((a, N v) ∷ row) d = ground (arith, lookup-plain_row k row d.1)
lookup-plain_row k ((a, bool_value v) ∷ row) d = ground (arith, lookup-plain_row k row d.1)
lookup-plain_row k ((a, other) ∷ row) d = ground (arith, lookup-plain_row k row d.1, eq_iff a k)

plain-some : (k : String) (row : Row) → IsRow k row → plain (some row) ≡ some (plain_row row)
plain-some k [] d = cc (d.1)
plain-some k (e ∷ row) d = refl

later-scalar :
    (a : Option Attribute) (now : ℕ) → later (scalar a) now ≡ compares (ltb_ℤ (pos now)) a
later-scalar none now = refl
later-scalar (some (S s)) now = refl
later-scalar (some (N n)) now = refl
later-scalar (some (bool_value b)) now = refl
later-scalar (some other) now = refl

ended-scalar :
    (a : Option Attribute) (now : ℕ) → ended (scalar a) now ≡ compares (λ m. leb_ℤ m (pos now)) a
ended-scalar none now = refl
ended-scalar (some (S s)) now = refl
ended-scalar (some (N n)) now = refl
ended-scalar (some (bool_value b)) now = refl
ended-scalar (some other) now = refl

abbrev pub alive_condition : ℕ → Condition
alive_condition now = both (attribute_exists "pk") (greater "ttl" (pos now))

abbrev pub free_condition : ℕ → Condition
free_condition now = either (attribute_not_exists "pk") (at_most "expires_at" (pos now))

-- The conditions that the store writes are the tests of the plain items.
alive-holds :
    (k : String) (row : Row) (now : ℕ)
    → IsRow k row
    → is_alive (plain (some row)) now ≡ holds (alive_condition now) (some row)
alive-holds k row now d =
    rw
      (plain-some k row d, lookup-plain_row "ttl" row d.0, later-scalar (lookup "ttl" row) now, d.1)
      refl

free-holds :
    (k : String) (row : Row) (now : ℕ)
    → IsRow k row
    → is_free (plain (some row)) now ≡ holds (free_condition now) (some row)
free-holds k row now d =
    rw
      (
        plain-some k row d,
        lookup-plain_row "expires_at" row d.0,
        ended-scalar (lookup "expires_at" row) now,
        d.1,
      )
      refl

abbrev pub count_in : Option Attribute → ℤ
count_in (some (N n)) = n
count_in _ = pos 0

shown-scalar : (a : Option Attribute) → shown (scalar a) ≡ count_in a
shown-scalar none = refl
shown-scalar (some (S s)) = refl
shown-scalar (some (N n)) = refl
shown-scalar (some (bool_value b)) = refl
shown-scalar (some other) = refl

tally-scalar :
    (k : String) (row : Row) → IsRow k row → tally (plain (some row)) ≡ scalar (lookup "n" row)
tally-scalar k row d = rw (plain-some k row d) (lookup-plain_row "n" row d.0)

pub below_cap :
    (a : Option Attribute) (cap : ℕ)
    → (not (is_some a) || compares (λ m. ltb_ℤ m (pos cap)) a) ≡ true
    → 0 < cap
    → count_in a <ℤ pos cap
below_cap none cap h p = omega arith
below_cap (some (N n)) cap h p = ground arith
below_cap (some (S s)) cap h p = cc
below_cap (some (bool_value b)) cap h p = cc
below_cap (some other) cap h p = cc

pub at_cap :
    (a : Option Attribute) (cap : ℕ) (m : ℤ)
    → (not (is_some a) || compares (λ n. ltb_ℤ n (pos cap)) a) ≡ false
    → scalar a ≡ some (number m)
    → pos cap ≤ℤ m
at_cap none cap m h e = cc
at_cap (some (N n)) cap m h e = ground arith
at_cap (some (S s)) cap m h e = cc
at_cap (some (bool_value b)) cap m h e = cc
at_cap (some other) cap m h e = cc

pub starting_count : (a : Option Attribute) (m : ℤ) → starting (pos 0) a ≡ some m → m ≡ count_in a
starting_count none m h = cc
starting_count (some (N n)) m h = cc
starting_count (some (S s)) m h = cc
starting_count (some (bool_value b)) m h = cc
starting_count (some other) m h = cc

abbrev pub IsFormed : String → Option Row → Type 0
IsFormed k row = (r : Row) → row ≡ some r → IsRow k r

pub is_alive-plain :
    (k : String) (row : Option Row) (now : ℕ)
    → IsFormed k row
    → is_alive (plain row) now ≡ holds (alive_condition now) row
is_alive-plain k none now d = refl
is_alive-plain k (some row) now d = alive-holds k row now (d row refl)

pub is_free-plain :
    (k : String) (row : Option Row) (now : ℕ)
    → IsFormed k row
    → is_free (plain row) now ≡ holds (free_condition now) row
is_free-plain k none now d = refl
is_free-plain k (some row) now d = free-holds k row now (d row refl)

pub tally-plain :
    (k : String) (row : Option Row)
    → IsFormed k row
    → tally (plain row) ≡ scalar (attribute "n" row)
tally-plain k none d = refl
tally-plain k (some row) d = tally-scalar k row (d row refl)

pub counter-plain :
    (k : String) (row : Option Row)
    → IsFormed k row
    → counter (plain row) ≡ count_in (attribute "n" row)
counter-plain k row d = rw (tally-plain k row d) (shown-scalar (attribute "n" row))

-- The plain items of the table.
abbrev pub items : {W : Type 0} → (W → String → Option Row) → W → Table
items rows w k = plain (rows w k)
