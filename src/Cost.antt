-- ===== src/Cost.antt =====
-- scripts/fold-cost.py: what the lifetimes of a cycle's resources cost. The two timelines are the
-- documents that scripts/fold-timeline.py writes, read with a key that is missing or None as none. A
-- float is any type with the operations that the script uses, and none is an exception: the refusal,
-- or the ValueError of an instant that strptime cannot read.
pub mod Pairing
pub mod Charge
pub mod Build
pub mod Phases
pub mod Rows
pub mod Paired
pub mod Band
pub mod Bounds
pub mod Monotone
use aws_devops_sdet_demo.Prelude.{
  ℕ, ℤ, ◌-ℤ◌, ltb_ℤ, String, Bool, true, false, Option, none, some, List, [], ◌∷◌, Dict, lookup,
  put, chain, contains, ◌==◌, if◌then◌else◌,
}

-- Python's floats. `seconds` is `total_seconds` of a number of microseconds.
pub record Floats (F : Type 0) : Type 0 where
  pub of_nat : ℕ → F
  pub add : F → F → F
  pub subtract : F → F → F
  pub multiply : F → F → F
  pub divide : F → F → F
  pub less : F → F → Bool
  pub seconds : ℤ → F
  pub round : F → ℕ → F

abbrev pub hours_per_month : ℕ
hours_per_month = 730

-- A resource of an operation, with what the fold reads of it.
pub record Resource : Type 0 where
  pub address : String
  pub action : Option String
  pub type : Option String
  pub started_at : Option String
  pub finished_at : Option String

pub record Timeline : Type 0 where
  pub environment : Option String
  pub status : Option String
  pub started_at : Option String
  pub finished_at : Option String
  pub operations : List (List Resource)

-- One component of a kind's price.
pub record Component (F : Type 0) : Type 0 where
  pub unit_price : String
  pub quantity : F
  pub quantity_from : List String
  pub per_month : Bool

pub record Price (F : Type 0) : Type 0 where
  pub minimum_seconds : F
  pub components : List (Component F)

pub record Model (F : Type 0) : Type 0 where
  pub free : Dict String
  pub not_metered : Dict String
  pub priced : Dict (Price F)

module _ (strptime : String → Option ℤ) where
  unfoldable pub parse_ts : Option String → Option (Option ℤ)
  parse_ts none = some none
  parse_ts (some s) = if s == "" then some none else (chain (strptime s) λ at. some (some at))

abbrev pub has_action : List String → Resource → Bool
has_action actions r = elim r.action [ none ↦ false | some action ↦ contains action actions ]

abbrev pub resources_in : List String → List Resource → Dict Resource → Dict Resource
resources_in actions [] found = found
resources_in actions (r ∷ rest) found =
    resources_in actions rest (if has_action actions r then put r.address r found else found)

abbrev pub resources_from : List String → List (List Resource) → Dict Resource → Dict Resource
resources_from actions [] found = found
resources_from actions (operation ∷ rest) found =
    resources_from actions rest (resources_in actions operation found)

unfoldable pub resources_of : Timeline → List String → Dict Resource
resources_of timeline actions = resources_from actions timeline.operations []

module _ {F : Type 0} (num : Floats F) where
  -- `max(a, b)`
  abbrev pub greater_of : F → F → F
  greater_of a b = if num.less a b then b else a

  unfoldable pub span : Option ℤ → Option ℤ → F
  span (some start) (some end) = greater_of (num.of_nat 0) (num.seconds (end -ℤ start))
  span (some start) none = num.of_nat 0
  span none end = num.of_nat 0

  abbrev pub later_of : ℤ → ℤ → ℤ
  later_of a b = if ltb_ℤ a b then b else a

  abbrev pub sooner_of : ℤ → ℤ → ℤ
  sooner_of a b = if ltb_ℤ b a then b else a

  unfoldable pub overlap : Option ℤ → Option ℤ → Option ℤ → Option ℤ → F
  overlap (some a_start) (some a_end) (some b_start) (some b_end) =
      greater_of (num.of_nat 0) (num.seconds (sooner_of a_end b_end -ℤ later_of a_start b_start))
  overlap _ _ _ _ = num.of_nat 0

  -- the quantity, times what the configuration reports under each name
  unfoldable pub quantity_of : Dict F → List String → F → Option F
  quantity_of shape [] quantity = some quantity
  quantity_of shape (name ∷ rest) quantity =
      chain (lookup name shape) λ size. quantity_of shape rest (num.multiply quantity size)

  abbrev pub hours_of : Component F → F → F
  hours_of c seconds =
      let hours = num.divide seconds (num.of_nat 3600) in
      if c.per_month then num.divide hours (num.of_nat hours_per_month) else hours

  unfoldable pub component_cost : Dict F → Dict F → Component F → F → Option F
  unfolding quantity_of
  component_cost unit_prices shape c seconds = chain (lookup c.unit_price unit_prices) λ usd.
      chain (quantity_of shape c.quantity_from c.quantity)
        λ quantity. some (num.multiply (num.multiply quantity usd) (hours_of c seconds))

  -- `sum(component_cost(c, ...) for c in components)`, from what is summed so far
  unfoldable pub costs : Dict F → Dict F → List (Component F) → F → F → Option F
  unfolding component_cost
  costs unit_prices shape [] seconds total = some total
  costs unit_prices shape (c ∷ rest) seconds total =
      chain (component_cost unit_prices shape c seconds)
        λ usd. costs unit_prices shape rest seconds (num.add total usd)
