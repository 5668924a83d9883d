-- ===== src/Tests/Cost.antt =====
-- A cycle with a database, a network and a resource that no table knows, for scripts/fold-cost.py. The
-- floats are whole numbers here, and an instant counts seconds.
use native.Mathlib.Nat.{mul-le-mul_left, le-div_iff_mul-le, div-mul-le_self}
use aws_devops_sdet_demo.Prelude.{
  ℕ, suc, ◌+◌, ◌-◌, ◌*◌, ℤ, pos, negsuc, ◌≤ℤ◌, ◌-ℤ◌, ltb, String, ◌≡◌, refl, true, false, Option,
  none, some, [], ◌∷◌, Dict, lookup, arith,
}
use Prim.Native.Nat.{◌/◌}
use aws_devops_sdet_demo.Cost.{Floats, Resource, Timeline, Model}
use aws_devops_sdet_demo.Cost.Pairing.{other_environment, pairing_refusals}
use aws_devops_sdet_demo.Cost.Phases.{attribute_to_phases}
use aws_devops_sdet_demo.Cost.Build.{Cost, build}
use aws_devops_sdet_demo.Cost.Rows.{Partitioned, build-Partitioned}
use aws_devops_sdet_demo.Cost.Paired.{Paired, build-Paired}
use aws_devops_sdet_demo.Cost.Monotone.{Le, FloatLaws}
use aws_devops_sdet_demo.Cost.Bounds.{build-Le}

abbrev whole_seconds : ℤ → ℕ
whole_seconds (pos n) = n
whole_seconds (negsuc n) = 0

abbrev whole : Floats ℕ
whole = record {
  of_nat = λ n. n;
  add = λ a b. a + b;
  subtract = λ a b. a - b;
  multiply = λ a b. a * b;
  divide = λ a b. a / b;
  less = λ a b. ltb a b;
  seconds = whole_seconds;
  round = λ a n. a;
}

multiply_whole : (c a b : ℕ) → ltb b a ≡ false → ltb (c * b) (c * a) ≡ false
multiply_whole c a b h = ground (arith, mul-le-mul_left {m = a} {n = b} c (ground arith))

divide_whole : (a b n : ℕ) → ltb b a ≡ false → ltb (b / suc n) (a / suc n) ≡ false
divide_whole a b n h = ground (
  arith,
  (le-div_iff_mul-le {k = suc n} {x = a / suc n} {y = b} (omega arith)).1
      (ground (arith, div-mul-le_self a (suc n))),
)

seconds_whole : (a b : ℤ) → a ≤ℤ b → ltb (whole_seconds b) (whole_seconds a) ≡ false
seconds_whole (pos a) (pos b) h = ground arith
seconds_whole (pos a) (negsuc b) h = ground arith
seconds_whole (negsuc a) (pos b) h = ground arith
seconds_whole (negsuc a) (negsuc b) h = ground arith

whole-FloatLaws : FloatLaws whole
whole-FloatLaws = record {
  le_refl = λ a. ground arith;
  le_trans = λ a b c h k. ground arith;
  less_le = λ a b h. ground arith;
  add_mono = λ a b c d h k. ground arith;
  multiply_mono = λ c a b h k. multiply_whole c a b k;
  multiply_positive = λ a b h k. ground arith;
  divide_mono = λ a b n h. divide_whole a b n h;
  seconds_mono = λ a b h. seconds_whole a b h;
  round_mono = λ a b n h. h;
}

abbrev instants : Dict ℤ
instants = ("a", pos 0) ∷ ("b", pos 300) ∷ ("c", pos 7500) ∷ ("d", pos 8000) ∷ []

abbrev strptime : String → Option ℤ
strptime s = lookup s instants

abbrev made : String → String → Resource
made address type = record {
  address = address;
  action = some "create";
  type = some type;
  started_at = some "a";
  finished_at = some "b";
}

abbrev dropped : String → Resource
dropped address = record {
  address = address;
  action = some "delete";
  type = none;
  started_at = some "c";
  finished_at = some "d";
}

abbrev apply : Timeline
apply = record {
  environment = some "stage";
  status = some "complete";
  started_at = some "a";
  finished_at = some "b";
  operations =
      (made "db" "aws_db_instance" ∷ made "vpc" "aws_vpc" ∷ made "odd" "aws_odd" ∷ []) ∷ [];
}

abbrev destroy : Timeline
destroy = record {
  environment = some "stage";
  status = some "complete";
  started_at = some "c";
  finished_at = some "d";
  operations = (dropped "db" ∷ dropped "stray" ∷ []) ∷ [];
}

abbrev model : Model ℕ
model = record {
  free = ("aws_vpc", "a network costs nothing") ∷ [];
  not_metered = [];
  priced =
      (
        "aws_db_instance",
        record {
          minimum_seconds = 0;
          components =
              record {
                unit_price = "db.hour";
                quantity = 1;
                quantity_from = "nodes" ∷ [];
                per_month = false;
              }
              ∷ [];
        },
      )
      ∷ [];
}

abbrev unit_prices : Dict ℕ
unit_prices = ("db.hour", 7200) ∷ []

abbrev shape : Dict ℕ
shape = ("nodes", 2) ∷ []

abbrev nothing : Cost ℕ
nothing = record {
  environment = "";
  is_closed = false;
  started_at = none;
  finished_at = none;
  duration_seconds = 0;
  usd = (0, 0);
  counts = record {
    created = 0;
    priced = 0;
    free = 0;
    not_metered = 0;
    unpriced = 0;
    orphan_deletes = 0;
  };
  unpriced = [];
  orphan_deletes = [];
  resources = [];
}

abbrev or_nothing : Option (Cost ℕ) → Cost ℕ
or_nothing none = nothing
or_nothing (some cost) = cost

abbrev cost : Cost ℕ
unfolding build
cost = or_nothing (build whole strptime "stage" apply (some destroy) unit_prices model shape none)

unpriced_runs : cost.unpriced ≡ "odd" ∷ []
unfolding build
unpriced_runs = refl

orphans_run : cost.orphan_deletes ≡ "stray" ∷ []
unfolding build
orphans_run = refl

refused_runs :
    pairing_refusals strptime "prod" apply (some destroy)
    ≡ some
        (other_environment "apply" "stage" "prod" ∷ other_environment "destroy" "stage" "prod" ∷ [])
unfolding pairing_refusals
refused_runs = refl

build-Partitioned_example : Partitioned whole strptime apply cost
unfolding build
build-Partitioned_example =
    build-Partitioned whole strptime "stage" apply (some destroy) unit_prices model shape none cost
      refl

build-Paired_example : Paired whole strptime "stage" apply destroy
unfolding build
build-Paired_example =
    build-Paired whole strptime "stage" apply destroy unit_prices model shape none cost refl

build-Le_example : Le whole cost.usd.0 cost.usd.1
unfolding build
build-Le_example =
    build-Le whole whole-FloatLaws strptime "stage" apply (some destroy) unit_prices model shape
      none cost refl refl refl refl refl refl

-- A deletion that has begun and has no end.
abbrev begun : Resource
begun = record {
  address = "db";
  action = some "delete";
  type = none;
  started_at = some "c";
  finished_at = none;
}

abbrev unfinished : Timeline
unfinished = record destroy { status = some "incomplete"; operations = (begun ∷ []) ∷ [] }

abbrev inverted : Cost ℕ
unfolding build
inverted =
    or_nothing (build whole strptime "stage" apply (some unfinished) unit_prices model shape none)

-- Its low bound is above its high bound.
inverted_runs : ltb inverted.usd.1 inverted.usd.0 ≡ true
unfolding build ◌-ℤ◌
inverted_runs = refl

abbrev windows : Dict (Option ℤ × Option ℤ)
windows = ("up", (some (pos 0), some (pos 1000000))) ∷ ("down", (none, none)) ∷ []

abbrev by_phase : Option (Dict ℕ × ℕ)
unfolding build attribute_to_phases
by_phase = attribute_to_phases whole strptime cost windows

-- The whole cost falls into the one window, and the phases come in the order of their names.
phases_run : by_phase ≡ some (("down", 0) ∷ ("up", 28800) ∷ [], 0)
unfolding build attribute_to_phases ◌-ℤ◌
phases_run = refl
