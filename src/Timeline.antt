-- ===== src/Timeline.antt =====
-- scripts/fold-timeline.py: one terraform invocation, folded from the events of its stream. An event
-- is a JSON object. The readers of Python's library are parameters, and none is the exception that
-- ends the script: an event whose type has no hash, whose timestamp is not a text, or whose hook,
-- resource, change, changes or diagnostic is neither missing nor an object. None is also where the model
-- ends before the script does: at a type that is a number with a fraction, and at an address that is
-- neither a text nor false, which a script would take as a key where it has a hash. Instants are
-- microseconds since the epoch, and `iso` answers none for None.
pub mod Consume
pub mod Verdict
pub mod Reading
pub mod Steps
pub mod Order
pub mod Answers
pub mod Pending
pub mod Document
pub mod Types
pub mod Made
pub mod Listed
use aws_devops_sdet_demo.Prelude.{
  ℕ, zero, ◌+◌, ℤ, String, ◌+++◌, Bool, true, false, not, ◌||◌, ◌&&◌, Option, none, some, List, [],
  ◌∷◌, ◌++◌, Value, Items, Fields, null, str, object, get, get?, value_true, Dict, lookup, put,
  keys, values, count_one, chain, ltb_ℤ, leb_ℤ, is_some, contains, ◌==◌, if◌then◌else◌,
}

-- What the fold uses of Python's library: `datetime.fromisoformat` (none is the ValueError) behind
-- the strip and the `Z` that parse_ts rewrites, `astimezone` and `strftime` together, `str.strip`,
-- `str.split`, `str.isdigit`, `repr`, `json.loads` (none is the JSONDecodeError), and the rounded seconds.
pub record Python : Type 0 where
  pub fromisoformat : String → Option ℤ
  pub strftime : ℤ → String
  pub strip : String → String
  pub split : String → List String
  pub isdigit : String → Bool
  pub repr : String → String
  pub loads : String → Option Value
  pub seconds : ℤ → Value

abbrev pub known_types : List String
known_types =
    "version" ∷ "log" ∷ "planned_change" ∷ "change_summary" ∷ "outputs" ∷ "refresh_start"
    ∷ "refresh_complete" ∷ "apply_start" ∷ "apply_progress" ∷ "apply_complete" ∷ "apply_errored"
    ∷ "provision_start" ∷ "provision_progress" ∷ "provision_complete" ∷ "provision_errored"
    ∷ "diagnostic" ∷ "resource_drift" ∷ "test_abstract" ∷ []

abbrev pub terminal_operations : List String
terminal_operations = "apply" ∷ "destroy" ∷ []

-- The type of an event as a key of a dict: None, a number or a text.
pub data TypeKey : Type 0 where
  nothing : TypeKey
  number : ℤ → TypeKey
  text : String → TypeKey

-- `==` of two keys
abbrev pub same_type : TypeKey → TypeKey → Bool
same_type nothing nothing = true
same_type (number a) (number b) = leb_ℤ a b && leb_ℤ b a
same_type (text a) (text b) = a == b
same_type _ _ = false

abbrev pub TypeCounts : Type 0
TypeCounts = List (TypeKey × ℕ)

-- `counts[key] = counts.get(key, 0) + 1`
abbrev pub count_type : TypeKey → TypeCounts → TypeCounts
count_type key [] = (key, 1) ∷ []
count_type key ((k, n) ∷ rest) =
    if same_type k key then (k, n + 1) ∷ rest else (k, n) ∷ count_type key rest

-- `counts.values()`
abbrev pub tallies : TypeCounts → List ℕ
tallies [] = []
tallies ((k, n) ∷ rest) = n ∷ tallies rest

pub data Status : Type 0 where
  incomplete complete errored : Status

pub record Resource : Type 0 where
  pub address : String
  pub module_of : Value
  pub type : Value
  pub name : Value
  pub action : Value
  pub status : Status
  pub started_at : Option String
  pub finished_at : Option String
  pub elapsed_seconds : Value
  pub last_progress_seconds : Value
  pub id_key : Value
  pub id_value : Value

pub record Tool : Type 0 where
  pub name : Option String
  pub version : Value
  pub message : Value

pub record Counts : Type 0 where
  pub add : Value
  pub change : Value
  pub remove : Value
  pub imported : Value

pub record Diagnostic : Type 0 where
  pub severity : Value
  pub summary : Value
  pub detail : Value
  pub address : Value

pub record Operation : Type 0 where
  pub order : ℕ
  pub label : String
  pub file : String
  pub exit_code : Option ℤ
  pub tool : Option Tool
  pub argv : Option String
  pub invoked : Option String
  pub command : Option String
  pub counts : Option Counts
  pub saw_terminal_summary : Bool
  pub resources : Dict Resource
  pub order_seen : List String
  pub planned : Dict Value
  pub planned_order : List String
  pub diagnostics : List Diagnostic
  pub event_types : TypeCounts
  pub unparsed_lines : ℕ
  pub unknown_types : TypeCounts
  pub first_ts : Option ℤ
  pub last_ts : Option ℤ

-- `Operation(order, label, stream_path)`
abbrev pub operation : ℕ → String → String → Operation
operation order label file = record {
  order = order;
  label = label;
  file = file;
  exit_code = none;
  tool = none;
  argv = none;
  invoked = none;
  command = none;
  counts = none;
  saw_terminal_summary = false;
  resources = [];
  order_seen = [];
  planned = [];
  planned_order = [];
  diagnostics = [];
  event_types = [];
  unparsed_lines = 0;
  unknown_types = [];
  first_ts = none;
  last_ts = none;
}

-- `value or {}`, none where a method of a dict is then called on something else
abbrev pub or_empty : Value → Option Fields
or_empty (object fields) = some fields
or_empty value = if value_true value then none else some Fields.end

-- `.endswith("Z")` rewritten to `+00:00`
offset_written : String → String
offset_written String.[] = ""
offset_written (String.◌∷◌ c s) =
    let rest = offset_written s in if String.◌∷◌ c s == "Z" then "+00:00" else String.◌∷◌ c rest

module _ (py : Python) where
  unfoldable pub read_ts : String → Option ℤ
  unfolding offset_written
  read_ts s = if s == "" then none else py.fromisoformat (offset_written (py.strip s))

  -- the outer none is the AttributeError
  abbrev pub parse_ts : Value → Option (Option ℤ)
  parse_ts (str s) = some (read_ts s)
  parse_ts value = if value_true value then none else some none

  abbrev pub iso : Option ℤ → Option String
  iso none = none
  iso (some at) = some (py.strftime at)
