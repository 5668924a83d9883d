-- ===== src/Cost/Charge.antt =====
-- scripts/fold-cost.py: the row of one created resource, with its lifetime and what it cost.
use aws_devops_sdet_demo.Prelude.{
  ℤ, String, Bool, true, false, not, ◌&&◌, ◌||◌, Option, none, some, List, [], ◌∷◌, Dict, lookup,
  chain, if◌then◌else◌,
}
use aws_devops_sdet_demo.Cost.{Floats, Resource, Price, Model, parse_ts, greater_of, span, costs}

pub data Bucket : Type 0 where
  is_free is_not_metered is_unpriced is_priced : Bucket

pub data State : Type 0 where
  not_charged closed still_open never_deleted : State

pub record Row (F : Type 0) : Type 0 where
  pub address : String
  pub type : Option String
  pub created : Option String × Option String
  pub deleted : Option (Option String × Option String)
  pub bucket : Bucket
  pub state : State
  pub reason : Option String
  pub seconds : Option (F × F)
  pub usd : Option (F × F)
  pub minimum_seconds_applied : Bool
  pub usd_per_second : Option F

-- A row with the two figures that are added to the totals, where it is priced.
pub record Entry (F : Type 0) : Type 0 where
  pub row : Row F
  pub figures : Option (F × F)

-- `table.get(kind)`, where the kind may be None
abbrev pub entry_for : {A : Type 0} → Option String → Dict A → Option A
entry_for none table = none
entry_for (some kind) table = lookup kind table

module _ {F : Type 0} (num : Floats F) (strptime : String → Option ℤ) where
  -- a row of a bucket that costs nothing here
  abbrev pub plain_entry : String → Resource → Bucket → Option String → Entry F
  plain_entry address r bucket reason = record {
    row = record {
      address = address;
      type = r.type;
      created = (r.started_at, r.finished_at);
      deleted = none;
      bucket = bucket;
      state = not_charged;
      reason = reason;
      seconds = none;
      usd = none;
      minimum_seconds_applied = false;
      usd_per_second = none;
    };
    figures = none;
  }

  abbrev pub instants_of : Resource → Option (Option ℤ × Option ℤ)
  instants_of r =
      chain (parse_ts strptime r.started_at)
        λ start. chain (parse_ts strptime r.finished_at) λ end. some (start, end)

  -- `low_end, high_end`
  abbrev pub ends_of : Option Resource → Option ℤ → Option (Option ℤ × Option ℤ)
  ends_of none as_of = some (as_of, as_of)
  ends_of (some delete_record) as_of = instants_of delete_record

  abbrev pub state_of : Option Resource → Bool → State
  state_of none is_closed = if is_closed then never_deleted else still_open
  state_of (some delete_record) is_closed = closed

  abbrev pub deletion : Option Resource → Option (Option String × Option String)
  deletion none = none
  deletion (some r) = some (r.started_at, r.finished_at)

  -- `low <= minimum` where there is a minimum
  abbrev pub floor_applied : F → F → Bool
  floor_applied minimum low =
      (num.less minimum (num.of_nat 0) || num.less (num.of_nat 0) minimum)
      && not (num.less minimum low)

  abbrev pub is_still_open : State → Bool
  is_still_open still_open = true
  is_still_open other = false

  abbrev pub rate_of : Dict F → Dict F → Price F → State → Bool → Option (Option F)
  rate_of unit_prices shape price state floored =
      if is_still_open state && not floored
      then (chain (costs num unit_prices shape price.components (num.of_nat 1) (num.of_nat 0))
          λ usd. some (some (num.round usd 12)))
      else some none

  abbrev pub priced_row :
      String → Resource → Option Resource → State → Bool → F → F → F → F → Option F → Entry F
  priced_row address r delete_record state floored low high usd_low usd_high rate = record {
    row = record {
      address = address;
      type = r.type;
      created = (r.started_at, r.finished_at);
      deleted = deletion delete_record;
      bucket = is_priced;
      state = state;
      reason = none;
      seconds = some (num.round low 1, num.round high 1);
      usd = some (num.round usd_low 6, num.round usd_high 6);
      minimum_seconds_applied = floored;
      usd_per_second = rate;
    };
    figures = some (usd_low, usd_high);
  }

  -- the figures of a lifetime between the bounds
  unfoldable pub charged :
      Dict F
      → Dict F
      → Price F
      → String
      → Resource
      → Option Resource
      → State
      → F
      → F
      → Option (Entry F)
  unfolding costs
  charged unit_prices shape price address r delete_record state low high =
      chain (costs num unit_prices shape price.components low (num.of_nat 0)) λ usd_low.
        chain (costs num unit_prices shape price.components high (num.of_nat 0)) λ usd_high.
          chain (rate_of unit_prices shape price state (floor_applied price.minimum_seconds low))
            λ rate. some (
              priced_row address r delete_record state (floor_applied price.minimum_seconds low) low
                high usd_low usd_high rate)

  unfoldable pub priced_entry :
      Dict F
      → Dict F
      → Bool
      → Option ℤ
      → Dict Resource
      → String
      → Resource
      → Price F
      → Option (Entry F)
  unfolding charged span parse_ts
  priced_entry unit_prices shape is_closed as_of deleted address r price =
      chain (instants_of r) λ created. chain (ends_of (lookup address deleted) as_of) λ ends.
        charged unit_prices shape price address r (lookup address deleted)
          (state_of (lookup address deleted) is_closed)
          (greater_of num (span num created.1 ends.0) price.minimum_seconds)
          (greater_of num (span num created.0 ends.1) price.minimum_seconds)

  -- the entry of one created resource, by the first table that knows its kind
  unfoldable pub entry_of :
      Dict F
      → Model F
      → Dict F
      → Bool
      → Option ℤ
      → Dict Resource
      → String
      → Resource
      → Option (Entry F)
  unfolding priced_entry
  entry_of unit_prices model shape is_closed as_of deleted address r =
      elim (entry_for r.type model.free) [
        | some why ↦ some (plain_entry address r is_free (some why))
        | none ↦ (elim (entry_for r.type model.not_metered) [
          | some why ↦ some (plain_entry address r is_not_metered (some why))
          | none ↦ (elim (entry_for r.type model.priced) [
            | none ↦ some (plain_entry address r is_unpriced none)
            | some price ↦ priced_entry unit_prices shape is_closed as_of deleted address r price
          ])
        ])
      ]

  unfoldable pub entries_of :
      Dict F
      → Model F
      → Dict F
      → Bool
      → Option ℤ
      → Dict Resource
      → Dict Resource
      → Option (List (Entry F))
  unfolding entry_of
  entries_of unit_prices model shape is_closed as_of deleted [] = some []
  entries_of unit_prices model shape is_closed as_of deleted ((address, r) ∷ rest) =
      chain (entry_of unit_prices model shape is_closed as_of deleted address r) λ entry.
        chain (entries_of unit_prices model shape is_closed as_of deleted rest)
          λ others. some (entry ∷ others)
