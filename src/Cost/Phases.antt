-- ===== src/Cost/Phases.antt =====
-- scripts/fold-cost.py: where in the cycle the money accrued, by how much of each lifetime fell inside
-- the window of each phase. The end of the cycle is taken as the instant, not as its text.
use Prim.Native.String.{compare}
use Prim.Native.Nat.{Ordering}
use aws_devops_sdet_demo.Prelude.{
  ℤ, String, Bool, ◌||◌, Option, none, some, List, [], ◌∷◌, Dict, chain, if◌then◌else◌,
}
use aws_devops_sdet_demo.Cost.{Floats, parse_ts, greater_of, span, overlap}
use aws_devops_sdet_demo.Cost.Build.{Cost}
use aws_devops_sdet_demo.Cost.Charge.{is_priced, Row}

place_named : {A : Type 0} → String × A → Dict A → Dict A
place_named item [] = item ∷ []
place_named item (other ∷ rest) =
    let later = other ∷ place_named item rest in
    elim (compare item.0 other.0) [ Ordering.gt ↦ later | _ ↦ item ∷ other ∷ rest ]

-- `sorted(d.items())` of a dict, whose names differ
unfoldable pub sorted_named : {A : Type 0} → Dict A → Dict A
unfolding place_named
sorted_named [] = []
sorted_named (item ∷ rest) = place_named item (sorted_named rest)

-- What each phase has been given, with its window.
abbrev Buckets : Type 0 → Type 0
Buckets F = Dict ((Option ℤ × Option ℤ) × F)

module _ {F : Type 0} (num : Floats F) (strptime : String → Option ℤ) where
  abbrev pub is_nonzero : F → Bool
  is_nonzero a = num.less a (num.of_nat 0) || num.less (num.of_nat 0) a

  -- the low figure of a row that is charged
  abbrev pub charged_low : Row F → Option F
  charged_low row = elim row.bucket [
    | is_priced ↦ (elim row.usd [
      | none ↦ none
      | some usd ↦ if is_nonzero usd.0 then some usd.0 else none
    ])
    | _ ↦ none
  ]

  -- the seconds of a lifetime in a window, added to the phase's bucket at the rate
  abbrev pub shared : Option ℤ → Option ℤ → F → Buckets F → Buckets F
  unfolding overlap
  shared start end rate [] = []
  shared start end rate ((name, (window, value)) ∷ rest) =
      (name, (window, num.add value (num.multiply (overlap num start end window.0 window.1) rate)))
      ∷ shared start end rate rest

  -- `covered`
  abbrev pub covered : Option ℤ → Option ℤ → Buckets F → F → F
  unfolding overlap
  covered start end [] sum = sum
  covered start end ((name, (window, value)) ∷ rest) sum =
      covered start end rest (num.add sum (overlap num start end window.0 window.1))

  -- the end of the lifetime: where the deletion started, or the end of the cycle
  abbrev pub lifetime_end : Row F → Option ℤ → Option (Option ℤ)
  unfolding parse_ts
  lifetime_end row cycle_end = elim row.deleted [
    | none ↦ some cycle_end
    | some instants ↦
        chain (parse_ts strptime instants.0)
          λ end. some (elim end [ none ↦ cycle_end | some at ↦ some at ])
  ]

  abbrev pub attributed : Option ℤ → Option ℤ → F → Buckets F × F → Buckets F × F
  unfolding shared covered span
  attributed start end usd (buckets, outside) =
      let lifetime = span num start end in
      let rate = num.divide usd lifetime in
      let left = num.subtract lifetime (covered start end buckets (num.of_nat 0)) in
      if num.less (num.of_nat 0) lifetime
      then (
        shared start end rate buckets,
        num.add outside (num.multiply (greater_of num (num.of_nat 0) left) rate),
      )
      else (buckets, outside)

  unfoldable pub attribute_rows : Option ℤ → List (Row F) → Buckets F × F → Option (Buckets F × F)
  unfolding parse_ts attributed lifetime_end
  attribute_rows cycle_end [] so_far = some so_far
  attribute_rows cycle_end (row ∷ rest) so_far = elim (charged_low row) [
    | none ↦ attribute_rows cycle_end rest so_far
    | some usd ↦ chain (parse_ts strptime row.created.1) λ start.
        chain (lifetime_end row cycle_end)
          λ end. attribute_rows cycle_end rest (attributed start end usd so_far)
  ]

  abbrev pub empty_buckets : Dict (Option ℤ × Option ℤ) → Buckets F
  empty_buckets [] = []
  empty_buckets ((name, window) ∷ rest) = (name, (window, num.of_nat 0)) ∷ empty_buckets rest

  abbrev pub rounded : Buckets F → Dict F
  rounded [] = []
  rounded ((name, (window, value)) ∷ rest) = (name, num.round value 6) ∷ rounded rest

  unfoldable pub attribute_to_phases : Cost F → Dict (Option ℤ × Option ℤ) → Option (Dict F × F)
  unfolding attribute_rows sorted_named
  attribute_to_phases cost windows =
      chain (attribute_rows cost.finished_at cost.resources (empty_buckets windows, num.of_nat 0))
        λ found. some (sorted_named (rounded found.0), num.round found.1 6)
