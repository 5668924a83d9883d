-- ===== src/Sweep.antt =====
-- infra/self-service/src/sweep.py: what the watchdog does about what it found. `fromisoformat`,
-- Python's reader of ISO dates, is a parameter: it answers the instant in microseconds since the
-- epoch, read as UTC where the text names no offset, or none for a ValueError.
pub mod Safety
use Prim.Native.Char.{code}
use aws_devops_sdet_demo.Prelude.{
  ℕ, zero, ◌*◌, ℤ, pos, ◌-ℤ◌, leb_ℤ, ltb_ℤ, eqb_ℤ, String, ◌+++◌, Bool, true, false, not, ◌||◌,
  Option, none, some, List, [], ◌∷◌, map, Dict, Item, Scalar, lookup, scalar_str, scalar_int,
  is_some, sorted_set, ◌==◌, if◌then◌else◌,
}
use aws_devops_sdet_demo.Control.Decide.{lock_is_expired}

pub data Kind : Type 0 where
  ecs alb rds : Kind

-- A billable resource; `cluster` is an ECS service's.
pub record Resource : Type 0 where
  pub kind : Kind
  pub id : String
  pub cluster : String
  pub tags : Dict String

pub data Action : Type 0 where
  nothing released_stale_lock within_deadline dispatch wait blunt : Action

-- 6 * 60 * 60
abbrev pub record_ttl_seconds : ℕ
record_ttl_seconds = 21600

pub record Sweep : Type 0 where
  pub action : Action
  pub alive : List String
  pub scope : String
  pub release_lock : Bool
  pub clear_record : Bool
  pub note_dispatch : Bool
  pub dispatched_s_ago : ℤ

-- `Sweep(action)` with its defaults
abbrev plain_sweep : Action → Sweep
plain_sweep action = record {
  action = action;
  alive = [];
  scope = "";
  release_lock = false;
  clear_record = false;
  note_dispatch = false;
  dispatched_s_ago = pos 0;
}

-- `tags.get(key, "")`
abbrev pub tag : String → Resource → String
tag key r = elim (lookup key r.tags) [ none ↦ "" | some v ↦ v ]

-- `",".join(parts)`
pub join_commas : List String → String
join_commas [] = ""
join_commas (s ∷ []) = s
join_commas (s ∷ t ∷ rest) = s +++ ("," +++ join_commas (t ∷ rest))

unfoldable pub scope_of : List Resource → String
unfolding sorted_set join_commas
scope_of alive = join_commas (sorted_set (map (tag "Launch") alive))

-- `.replace("Z", "+00:00")`
utc_offset : String → String
utc_offset String.[] = ""
utc_offset (String.◌∷◌ c s) =
    (if String.◌∷◌ c String.[] == "Z" then "+00:00" else String.◌∷◌ c String.[]) +++ utc_offset s

abbrev pub instant_passed : Option ℤ → ℕ → Bool
instant_passed none now = true
instant_passed (some micros) now = leb_ℤ micros (pos (now * 1000000))

-- When we last asked Actions to destroy this situation; zero is never.
abbrev pub or_zero : Option ℤ → ℤ
or_zero none = pos 0
or_zero (some n) = n

abbrev pub recorded_scope : Option Scalar → String
recorded_scope none = ""
recorded_scope (some s) = scalar_str s

unfoldable pub dispatched_at_for : Option Item → String → ℤ
unfolding scalar_str scalar_int
dispatched_at_for none scope = pos 0
dispatched_at_for (some []) scope = pos 0
dispatched_at_for (some (entry ∷ rest)) scope =
    if recorded_scope (lookup "scope" (entry ∷ rest)) == scope
    then or_zero (scalar_int (lookup "dispatched_at" (entry ∷ rest)))
    else pos 0

module _ (fromisoformat : String → Option ℤ) where
  unfoldable pub deadline_passed : Resource → ℕ → Bool
  unfolding utc_offset
  deadline_passed r now =
      if tag "ExpiresAt" r == ""
      then true
      else instant_passed (fromisoformat (utc_offset (tag "ExpiresAt" r))) now

  unfoldable pub any_passed : List Resource → ℕ → Bool
  any_passed [] now = false
  any_passed (r ∷ rest) now = deadline_passed r now || any_passed rest now

  -- the branch with live resources whose time is over
  pub overdue : List Resource → Option Item → ℕ → ℕ → Sweep
  unfolding dispatched_at_for
  overdue alive last now grace =
      let scope = scope_of alive in
      let ids = map (λ r. r.id) alive in
      let dispatched_at = dispatched_at_for last scope in
      if eqb_ℤ dispatched_at (pos 0)
      then record (plain_sweep dispatch) { alive = ids; scope = scope; note_dispatch = true }
      else if ltb_ℤ (pos now -ℤ dispatched_at) (pos grace)
      then record (plain_sweep wait) {
        alive = ids;
        scope = scope;
        dispatched_s_ago = pos now -ℤ dispatched_at;
      }
      else record (plain_sweep blunt) {
        alive = ids;
        scope = scope;
        release_lock = true;
        clear_record = true;
      }

  unfoldable pub decide_sweep : List Resource → Option Item → Option Item → ℕ → ℕ → Sweep
  unfolding overdue any_passed
  decide_sweep [] lock last now grace =
      if lock_is_expired lock now
      then record (plain_sweep released_stale_lock) {
        release_lock = true;
        clear_record = is_some last;
      }
      else record (plain_sweep nothing) { clear_record = is_some last }
  decide_sweep (r ∷ rest) lock last now grace =
      if any_passed (r ∷ rest) now || (lock_is_expired lock now || not (is_some lock))
      then overdue (r ∷ rest) last now grace
      else record (plain_sweep within_deadline) {
        alive = map (λ r. r.id) (r ∷ rest);
        scope = scope_of (r ∷ rest);
      }
