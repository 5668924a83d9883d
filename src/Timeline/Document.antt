-- ===== src/Timeline/Document.antt =====
-- scripts/fold-timeline.py: the document of one operation and the timeline of all of them; the run and
-- the instant of writing are arguments. None is the KeyError of an address that is listed and not
-- known, the TypeError of types that have no order among them, and the TypeError of an instant that was written and cannot be read back.
use Prim.Native.String.{compare}
use Prim.Native.Nat.{Ordering}
use aws_devops_sdet_demo.Prelude.{
  one_if, ℕ, ◌+◌, ℤ, ◌-ℤ◌, ltb_ℤ, String, Bool, false, ◌||◌, ◌&&◌, Option, none, some, List, [],
  ◌∷◌, map, Value, null, str, Dict, lookup, sum, length, is_empty, chain, ◌==◌, if◌then◌else◌,
}
use aws_devops_sdet_demo.Timeline.{
  TypeKey, nothing, number, text, TypeCounts, tallies, Python, Status, Resource, Tool, Counts,
  Diagnostic, Operation, iso, read_ts,
}
use aws_devops_sdet_demo.Timeline.Verdict.{is_complete, status, reason, timeline_status}

-- `[d[key] for key in listed]`
abbrev pub picked : {A : Type 0} → List String → Dict A → Option (List A)
picked [] d = some []
picked (key ∷ rest) d = chain (lookup key d) λ a. chain (picked rest d) λ others. some (a ∷ others)

-- the same, each with its key
abbrev pub picked_items : {A : Type 0} → List String → Dict A → Option (Dict A)
picked_items [] d = some []
picked_items (key ∷ rest) d =
    chain (lookup key d) λ a. chain (picked_items rest d) λ others. some ((key, a) ∷ others)

-- The order of two keys, none where they have none: the TypeError.
abbrev pub order_of : TypeKey → TypeKey → Option Ordering
order_of (text a) (text b) = some (compare a b)
order_of (number a) (number b) = some (if ltb_ℤ b a then Ordering.gt else Ordering.lt)
order_of nothing nothing = some Ordering.eq
order_of _ _ = none

abbrev pub placed_before :
    TypeKey × ℕ → TypeCounts → Option TypeCounts → Option Ordering → Option TypeCounts
placed_before item sorted later none = none
placed_before item sorted later (some Ordering.gt) = later
placed_before item sorted later (some _) = some (item ∷ sorted)

abbrev pub place_type : TypeKey × ℕ → TypeCounts → Option TypeCounts
place_type item [] = some (item ∷ [])
place_type item (other ∷ rest) =
    placed_before item (other ∷ rest) (chain (place_type item rest) (λ more. some (other ∷ more)))
      (order_of item.0 other.0)

-- `dict(sorted(d.items()))`: the keys of a dict differ, so that the numbers are never compared.
unfoldable pub sorted_types : TypeCounts → Option TypeCounts
sorted_types [] = some []
sorted_types (item ∷ rest) = chain (sorted_types rest) (place_type item)

abbrev pub schema : String
schema = "timeline/1"

pub record Folded : Type 0 where
  pub order : ℕ
  pub label : String
  pub command : Option String
  pub reached : Option String
  pub argv : Option String
  pub status_of : Status
  pub reason_of : Option String
  pub exit_code : Option ℤ
  pub started_at : Option String
  pub finished_at : Option String
  pub duration_seconds : Value
  pub counts : Option Counts
  pub planned : Option (Dict Value)
  pub resources : List Resource
  pub diagnostics : List Diagnostic
  pub file : String
  pub events : ℕ
  pub unparsed_lines : ℕ
  pub unknown_types : TypeCounts
  pub event_types : TypeCounts

pub record Totals : Type 0 where
  pub operations : ℕ
  pub resources_observed : ℕ
  pub resources_created : ℕ
  pub resources_destroyed : ℕ

pub record Timeline : Type 0 where
  pub schema_of : String
  pub environment : String
  pub status_of : Status
  pub written_at : String
  pub run : Value
  pub tool : Option Tool
  pub started_at : Option String
  pub finished_at : Option String
  pub duration_seconds : Value
  pub totals : Totals
  pub operations : List Folded

-- `a or b`
abbrev pub or_else : Option String → Option String → Option String
or_else none b = b
or_else (some a) b = if a == "" then b else some a

module _ (py : Python) where
  abbrev pub seconds_between : Option ℤ → Option ℤ → Value
  seconds_between (some start) (some end) = py.seconds (end -ℤ start)
  seconds_between _ _ = null

  abbrev pub folded_of : Operation → List Resource → Dict Value → TypeCounts → Folded
  unfolding status reason
  folded_of op resources planned types = record {
    order = op.order;
    label = op.label;
    command = or_else op.invoked op.command;
    reached = op.command;
    argv = op.argv;
    status_of = status op;
    reason_of = reason op;
    exit_code = op.exit_code;
    started_at = iso py op.first_ts;
    finished_at = iso py op.last_ts;
    duration_seconds = seconds_between op.first_ts op.last_ts;
    counts = op.counts;
    planned = if is_empty op.planned_order then none else some planned;
    resources = resources;
    diagnostics = op.diagnostics;
    file = op.file;
    events = sum (tallies op.event_types);
    unparsed_lines = op.unparsed_lines;
    unknown_types = op.unknown_types;
    event_types = types;
  }

  unfoldable pub to_json : Operation → Option Folded
  unfolding status reason sorted_types
  to_json op = chain (picked op.order_seen op.resources) λ resources.
      chain (picked_items op.planned_order op.planned) λ planned.
        chain (sorted_types op.event_types) λ types. some (folded_of op resources planned types)

  abbrev pub to_json_all : List Operation → Option (List Folded)
  unfolding to_json
  to_json_all [] = some []
  to_json_all (op ∷ rest) =
      chain (to_json op) λ folded. chain (to_json_all rest) λ others. some (folded ∷ others)

abbrev pub is_action : String → Value → Bool
is_action action (str s) = s == action
is_action action other = false

-- the number of a list's resources that ended complete with one of two actions
abbrev pub completed : String → String → List Resource → ℕ
completed action or_action [] = 0
completed action or_action (r ∷ rest) =
    one_if (is_complete r.status && (is_action action r.action || is_action or_action r.action))
    + completed action or_action rest

abbrev pub totals_of : List Folded → Totals
totals_of folded = record {
  operations = length folded;
  resources_observed = sum (map (λ f. length f.resources) folded);
  resources_created = sum (map (λ f. completed "create" "replace" f.resources) folded);
  resources_destroyed = sum (map (λ f. completed "delete" "delete" f.resources) folded);
}

-- `next((op.tool for op in operations if op.tool), None)`
abbrev pub first_tool : List Operation → Option Tool
first_tool [] = none
first_tool (op ∷ rest) = elim op.tool [ some tool ↦ some tool | none ↦ first_tool rest ]

-- `[parse_ts(t) for t in texts if t]`, with no instant for the texts that cannot be read
unfoldable pub read_back : Python → List (Option String) → Option (List ℤ)
unfolding read_ts
read_back py [] = some []
read_back py (none ∷ rest) = read_back py rest
read_back py (some s ∷ rest) =
    let others = read_back py rest in
    if s == ""
    then others
    else (chain (read_ts py s) λ at. chain others λ instants. some (at ∷ instants))

abbrev pub minimum : List ℤ → Option ℤ
minimum [] = none
minimum (a ∷ rest) = elim (minimum rest) [
  | none ↦ some a
  | some least ↦ if ltb_ℤ least a then some least else some a
]

abbrev pub maximum : List ℤ → Option ℤ
maximum [] = none
maximum (a ∷ rest) = elim (maximum rest) [
  | none ↦ some a
  | some most ↦ if ltb_ℤ a most then some most else some a
]

module _ (py : Python) where
  abbrev pub timeline_of :
      String → String → Value → List Operation → List Folded → Option ℤ → Option ℤ → Timeline
  unfolding timeline_status
  timeline_of environment written_at run operations folded start end = record {
    schema_of = schema;
    environment = environment;
    status_of = timeline_status operations;
    written_at = written_at;
    run = run;
    tool = first_tool operations;
    started_at = iso py start;
    finished_at = iso py end;
    duration_seconds = seconds_between py start end;
    totals = totals_of folded;
    operations = folded;
  }

  unfoldable pub build : String → String → List Operation → Value → Option Timeline
  unfolding to_json timeline_status read_back
  build environment written_at operations run = chain (to_json_all py operations) λ folded.
      chain (read_back py (map (λ f. f.started_at) folded)) λ starts.
        chain (read_back py (map (λ f. f.finished_at) folded)) λ ends.
          some (
            timeline_of environment written_at run operations folded (minimum starts)
              (maximum ends))
