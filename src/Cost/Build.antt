-- ===== src/Cost/Build.antt =====
-- scripts/fold-cost.py: the cost of a cycle, with its totals and counts.
use aws_devops_sdet_demo.Prelude.{
  ℕ, ℤ, String, Bool, true, false, not, Option, none, some, List, [], ◌∷◌, Dict, keys, chain,
  filter, length, is_empty, is_some, contains, sorted_set, map, if◌then◌else◌,
}
use aws_devops_sdet_demo.Cost.{Floats, Resource, Timeline, Model, parse_ts, resources_of, span}
use aws_devops_sdet_demo.Cost.Pairing.{pairing_refusals}
use aws_devops_sdet_demo.Cost.Charge.{
  Bucket, Row, Entry, entries_of, is_free, is_not_metered, is_unpriced, is_priced,
}

module _ {F : Type 0} (num : Floats F) (strptime : String → Option ℤ) where
  -- `total_low += usd_low; total_high += usd_high`
  unfoldable pub totals : List (Entry F) → F → F → F × F
  totals [] low high = (low, high)
  totals (entry ∷ rest) low high = elim entry.figures [
    | none ↦ totals rest low high
    | some (usd_low, usd_high) ↦ totals rest (num.add low usd_low) (num.add high usd_high)
  ]

abbrev pub in_bucket : {F : Type 0} → (Bucket → Bool) → List (Entry F) → List (Entry F)
in_bucket p entries = filter (λ e. p e.row.bucket) entries

abbrev pub priced_bucket : Bucket → Bool
priced_bucket is_priced = true
priced_bucket other = false

abbrev pub free_bucket : Bucket → Bool
free_bucket is_free = true
free_bucket other = false

abbrev pub not_metered_bucket : Bucket → Bool
not_metered_bucket is_not_metered = true
not_metered_bucket other = false

abbrev pub unpriced_bucket : Bucket → Bool
unpriced_bucket is_unpriced = true
unpriced_bucket other = false

pub record Counts : Type 0 where
  pub created : ℕ
  pub priced : ℕ
  pub free : ℕ
  pub not_metered : ℕ
  pub unpriced : ℕ
  pub orphan_deletes : ℕ

pub record Cost (F : Type 0) : Type 0 where
  pub environment : String
  pub is_closed : Bool
  pub started_at : Option ℤ
  pub finished_at : Option ℤ
  pub duration_seconds : F
  pub usd : F × F
  pub counts : Counts
  pub unpriced : List String
  pub orphan_deletes : List String
  pub resources : List (Row F)

abbrev pub addresses : {F : Type 0} → List (Entry F) → List String
addresses entries = map (λ e. e.row.address) entries

-- `sorted(set(deleted) - set(created))`
unfoldable pub orphan_deletes_of : Dict Resource → Dict Resource → List String
unfolding sorted_set
orphan_deletes_of created deleted =
    filter (λ a. not (contains a (keys created))) (sorted_set (keys deleted))

module _ {F : Type 0} (num : Floats F) (strptime : String → Option ℤ) where
  abbrev pub deleted_in : Option Timeline → Dict Resource
  deleted_in none = []
  deleted_in (some destroy) = resources_of destroy ("delete" ∷ [])

  abbrev pub cycle_end : Option Timeline → Option ℤ → Option (Option ℤ)
  cycle_end none as_of = some as_of
  cycle_end (some destroy) as_of = parse_ts strptime destroy.finished_at

  abbrev pub cost_of :
      String → Bool → Option ℤ → Option ℤ → Dict Resource → Dict Resource → List (Entry F) → Cost F
  cost_of environment is_closed start end created deleted entries =
      let total = totals num strptime entries (num.of_nat 0) (num.of_nat 0) in
      let unpriced = addresses (in_bucket unpriced_bucket entries) in
      let orphans = orphan_deletes_of created deleted in
      record {
        environment = environment;
        is_closed = is_closed;
        started_at = start;
        finished_at = end;
        duration_seconds = num.round (span num start end) 1;
        usd = (num.round total.0 6, num.round total.1 6);
        counts = record {
          created = length created;
          priced = length (in_bucket priced_bucket entries);
          free = length (in_bucket free_bucket entries);
          not_metered = length (in_bucket not_metered_bucket entries);
          unpriced = length unpriced;
          orphan_deletes = length orphans;
        };
        unpriced = unpriced;
        orphan_deletes = orphans;
        resources = map (λ e. e.row) entries;
      }

  -- the entries and the cost, once the pair is accepted
  unfoldable pub accepted :
      String → Timeline → Option Timeline → Dict F → Model F → Dict F → Option ℤ → Option (Cost F)
  unfolding parse_ts resources_of entries_of totals span orphan_deletes_of
  accepted environment apply destroy unit_prices model shape as_of =
      chain
        (entries_of num strptime unit_prices model shape (is_some destroy) as_of
          (deleted_in destroy) (resources_of apply ("create" ∷ "replace" ∷ [])))
        λ entries. chain (parse_ts strptime apply.started_at) λ start.
          chain (cycle_end destroy as_of) λ end. some (
            cost_of environment (is_some destroy) start end
              (resources_of apply ("create" ∷ "replace" ∷ [])) (deleted_in destroy) entries)

  unfoldable pub build :
      String → Timeline → Option Timeline → Dict F → Model F → Dict F → Option ℤ → Option (Cost F)
  unfolding pairing_refusals accepted
  build environment apply destroy unit_prices model shape as_of =
      chain (pairing_refusals strptime environment apply destroy) λ problems.
        if is_empty problems
        then accepted environment apply destroy unit_prices model shape as_of
        else none
