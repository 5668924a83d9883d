-- ===== src/Timeline/Consume.antt =====
-- scripts/fold-timeline.py: what Operation.consume does with one event, type by type.
use aws_devops_sdet_demo.Prelude.{
  ℤ, String, true, not, ◌&&◌, Option, none, some, List, [], ◌∷◌, ◌++◌, Value, Fields, null, bool,
  int, real, str, array, object, pos, Bool, false, one_if, get, get?, value_true, lookup, put,
  chain, ltb_ℤ, is_some, contains, ◌==◌, if◌then◌else◌,
}
use aws_devops_sdet_demo.Timeline.{
  TypeKey, nothing, number, text, count_type, Python, known_types, terminal_operations, Resource,
  Tool, Operation, operation, or_empty, read_ts, parse_ts, iso, incomplete, complete, errored,
}

-- A value as a key; True, 1 and 1.0 are one key.
abbrev pub key_of : Value → Option TypeKey
key_of null = some nothing
key_of (bool b) = some (number (pos (one_if b)))
key_of (int n) = some (number n)
key_of (real (some n)) = some (number n)
key_of (str s) = some (text s)
key_of _ = none

-- `event.get("type", "<none>")`
abbrev pub type_of : Fields → Option TypeKey
type_of event = elim (get? "type" event) [ none ↦ some (text "<none>") | some value ↦ key_of value ]

-- `etype in KNOWN_TYPES`
abbrev pub is_known : TypeKey → Bool
is_known (text etype) = contains etype known_types
is_known _ = false

abbrev pub counted : TypeKey → Operation → Operation
counted key op = record op {
  event_types = count_type key op.event_types;
  unknown_types = if is_known key then op.unknown_types else count_type key op.unknown_types;
}

abbrev pub earlier : ℤ → Option ℤ → Option ℤ
earlier at none = some at
earlier at (some first) = if ltb_ℤ at first then some at else some first

abbrev pub later : ℤ → Option ℤ → Option ℤ
later at none = some at
later at (some last) = if ltb_ℤ last at then some at else some last

abbrev pub timed : Option ℤ → Operation → Operation
timed none op = op
timed (some at) op = record op { first_ts = earlier at op.first_ts; last_ts = later at op.last_ts }

abbrev pub tool_of : Fields → Tool
tool_of event = elim (get? "terraform" event) [
  | some version ↦ record {
    name = some "terraform";
    version = version;
    message = get "@message" event;
  }
  | none ↦ (elim (get? "tofu" event) [
    | some version ↦ record {
      name = some "tofu";
      version = version;
      message = get "@message" event;
    }
    | none ↦ record { name = none; version = null; message = get "@message" event }
  ])
]

-- An operation as it is looked for in a set: some none where it is no text, none where it has no hash.
abbrev pub text_of : Value → Option (Option String)
text_of (str s) = some (some s)
text_of (array items) = none
text_of (object fields) = none
text_of value = some none

abbrev pub summed : Fields → String → Operation → Operation
summed changes operation op =
    if contains operation terminal_operations
    then record op {
      saw_terminal_summary = true;
      command = some operation;
      counts = some (record {
        add = get "add" changes;
        change = get "change" changes;
        remove = get "remove" changes;
        imported = get "import" changes;
      });
    }
    else if (operation == "plan") && not (is_some op.command)
    then record op { command = some "plan" }
    else op

-- `if not address: return`
abbrev pub if_named : Option String → Operation → (String → Operation) → Operation
if_named none op f = op
if_named (some address) op f = f address

abbrev pub summary_read : Fields → Operation → Option Operation
summary_read changes op =
    chain (text_of (get "operation" changes))
      λ operation. some (if_named operation op (λ o. summed changes o op))

abbrev pub diagnosed : Fields → Operation → Operation
diagnosed diag op = record op {
  diagnostics =
      op.diagnostics
      ++ (record {
        severity = get "severity" diag;
        summary = get "summary" diag;
        detail = get "detail" diag;
        address = get "address" diag;
      }
          ∷ []);
}

-- `resource.get("addr")`: some none where it is false
abbrev pub address_of : Fields → Option (Option String)
address_of resource = elim (get "addr" resource) [
  | str s ↦ some (if s == "" then none else some s)
  | value ↦ if value_true value then none else some none
]

abbrev pub plan_noted : Fields → String → Operation → Operation
plan_noted change address op = record op {
  planned = put address (get "action" change) op.planned;
  planned_order =
      if is_some (lookup address op.planned)
      then op.planned_order
      else op.planned_order ++ (address ∷ []);
}

abbrev pub planned_read : Fields → Operation → Option Operation
planned_read event op = chain (or_empty (get "change" event)) λ change.
    chain (or_empty (get "resource" change)) λ resource.
      chain (address_of resource)
        λ address. some (if_named address op (λ a. plan_noted change a op))

-- the record that a first hook makes
abbrev pub started_record : Fields → Fields → String → Resource
started_record hook resource address = record {
  address = address;
  module_of = if value_true (get "module" resource) then get "module" resource else str "";
  type = get "resource_type" resource;
  name = get "resource_name" resource;
  action = get "action" hook;
  status = incomplete;
  started_at = none;
  finished_at = none;
  elapsed_seconds = null;
  last_progress_seconds = null;
  id_key = null;
  id_value = null;
}

abbrev pub acted : Fields → Resource → Resource
acted hook r = if value_true (get "action" hook) then record r { action = get "action" hook } else r

-- the record after a hook of the type, at the instant
abbrev pub hooked : String → Fields → Option String → Resource → Resource
hooked etype hook at r =
    if etype == "apply_start"
    then record r { started_at = at }
    else if etype == "apply_progress"
    then record r { last_progress_seconds = get "elapsed_seconds" hook }
    else if etype == "apply_complete"
    then record r {
      status = complete;
      finished_at = at;
      elapsed_seconds = get "elapsed_seconds" hook;
      id_key = get "id_key" hook;
      id_value = get "id_value" hook;
    }
    else if etype == "apply_errored"
    then record r {
      status = errored;
      finished_at = at;
      elapsed_seconds = get "elapsed_seconds" hook;
    }
    else r

-- the record that the hook finds, or the one that it makes
abbrev pub or_started : Fields → Fields → String → Option Resource → Resource
or_started hook resource address none = started_record hook resource address
or_started hook resource address (some r) = r

abbrev pub record_for : Fields → Fields → String → Operation → Resource
record_for hook resource address op = or_started hook resource address (lookup address op.resources)

abbrev pub hook_noted : String → Fields → Fields → String → Option String → Operation → Operation
hook_noted etype hook resource address at op = record op {
  resources =
      put address (hooked etype hook at (acted hook (record_for hook resource address op)))
        op.resources;
  order_seen =
      if is_some (lookup address op.resources)
      then op.order_seen
      else op.order_seen ++ (address ∷ []);
}

unfoldable pub consume_hook : String → Fields → Option String → Operation → Option Operation
consume_hook etype event at op = chain (or_empty (get "hook" event)) λ hook.
    chain (or_empty (get "resource" hook)) λ resource.
      chain (address_of resource)
        λ address. some (if_named address op (λ a. hook_noted etype hook resource a at op))

abbrev pub hook_types : List String
hook_types = "apply_start" ∷ "apply_progress" ∷ "apply_complete" ∷ "apply_errored" ∷ []

-- what follows the counting and the timing
unfoldable pub consumed : String → Fields → Option String → Operation → Option Operation
unfolding consume_hook
consumed etype event at op =
    if etype == "version"
    then some (record op { tool = some (tool_of event) })
    else if etype == "change_summary"
    then chain (or_empty (get "changes" event)) (λ changes. summary_read changes op)
    else if etype == "diagnostic"
    then chain (or_empty (get "diagnostic" event)) (λ diag. some (diagnosed diag op))
    else if etype == "planned_change"
    then planned_read event op
    else if contains etype hook_types
    then consume_hook etype event at op
    else some op

-- A type that is no text is none of those that the script names.
unfoldable pub consumed_as : TypeKey → Fields → Option String → Operation → Option Operation
unfolding consumed
consumed_as (text etype) event at op = consumed etype event at op
consumed_as nothing event at op = some op
consumed_as (number n) event at op = some op

module _ (py : Python) where
  unfoldable pub consume : Fields → Operation → Option Operation
  unfolding consumed_as read_ts
  consume event op = chain (type_of event) λ key.
      chain (parse_ts py (get "@timestamp" event))
        λ ts. consumed_as key event (iso py ts) (timed ts (counted key op))

  -- the loop over the events of a stream
  unfoldable pub consume_all : List Fields → Operation → Option Operation
  unfolding consume
  consume_all [] op = some op
  consume_all (event ∷ rest) op = chain (consume event op) (consume_all rest)
