-- ===== src/Messages.antt =====
-- The two messages between the api and the worker: app/src/events.py, the parser of
-- app/src/results.py and worker/consumer/handler.py. `json.loads` and `json.dumps` are parameters;
-- `loads` is none where it raises a TypeError or a ValueError.
pub mod Contract
use aws_devops_sdet_demo.Prelude.{
  ℕ, zero, suc, ℤ, pos, eqb_ℤ, String, Bool, true, false, Option, none, some, Value, null, int, str,
  bool, real, object, Fields, field, end, get, Outcome, ok, raised, ◌==◌, if◌then◌else◌,
}

-- What a parser refuses a message for.
pub data Poison : Type 0 where
  not_json : Poison
  not_an_object : Poison
  wrong_type : Value → Poison
  wrong_version : Value → Poison
  no_item : Poison
  bad_item_id : Value → Poison
  no_processed_at : Poison
  no_processed_by : Poison

-- `v == s` and `v == n`, as Python compares: True and 1.0 are equal to 1
abbrev pub equals_str : String → Value → Bool
equals_str s (str t) = t == s
equals_str s _ = false

abbrev pub equals_int : ℤ → Value → Bool
equals_int n (bool true) = eqb_ℤ n (pos 1)
equals_int n (bool false) = eqb_ℤ n (pos 0)
equals_int n (int m) = eqb_ℤ n m
equals_int n (real (some m)) = eqb_ℤ n m
equals_int n _ = false

-- an int that is not a bool, and positive
unfoldable pub item_id_of : Value → Option ℕ
item_id_of (int (pos (suc n))) = some (suc n)
item_id_of _ = none

-- a string that is not empty
unfoldable pub text_of : Value → Option String
text_of (str s) = if s == "" then none else some s
text_of _ = none

-- `s or "-"`
abbrev pub or_dash : Option String → String
or_dash none = "-"
or_dash (some s) = if s == "" then "-" else s

unfoldable pub item_created_event : ℕ → String → String → Option String → Value
item_created_event item_id name created_at request_id = object (
    field "type" (str "item.created") (
      field "version" (int (pos 1)) (
        field "item"
          (object (
            field "id" (int (pos item_id))
              (field "name" (str name) (field "created_at" (str created_at) end))))
          (field "request_id" (str (or_dash request_id)) end))))

unfoldable pub item_processed_event : ℕ → String → String → String → Value
item_processed_event item_id processed_at processed_by request_id = object (
    field "type" (str "item.processed") (
      field "version" (int (pos 1)) (
        field "item" (object (field "id" (int (pos item_id)) end)) (
          field "processed_at" (str processed_at) (
            field "processed_by" (str processed_by)
              (field "request_id" (str (or_dash (some request_id))) end))))))

unfoldable pub item_created_message :
    (Value → String) → ℕ → String → String → Option String → String
unfolding item_created_event
item_created_message dumps item_id name created_at request_id =
    dumps (item_created_event item_id name created_at request_id)

unfoldable pub item_processed_message : (Value → String) → ℕ → String → String → String → String
unfolding item_processed_event
item_processed_message dumps item_id processed_at processed_by request_id =
    dumps (item_processed_event item_id processed_at processed_by request_id)

-- What the worker reads of a message: the item and the request.
abbrev pub Created : Type 0
Created = ℕ × String

-- What the api reads of a report.
pub record Report : Type 0 where
  pub item_id : ℕ
  pub processed_at : String
  pub processed_by : String
  pub request_id : Option String

-- The checks that both parsers begin with: the event's fields and its item's id.
module _ (event_type : String) where
  item_id_read : Fields → Value → Option ℕ → Outcome Poison (Fields × ℕ)
  item_id_read event shown none = raised (bad_item_id shown)
  item_id_read event shown (some n) = ok (event, n)

  item_read : Fields → Value → Outcome Poison (Fields × ℕ)
  unfolding item_id_read item_id_of
  item_read event (object item) = item_id_read event (get "id" item) (item_id_of (get "id" item))
  item_read event _ = raised no_item

  event_read : Option Value → Outcome Poison (Fields × ℕ)
  unfolding item_read
  event_read none = raised not_json
  event_read (some (object event)) =
      if equals_str event_type (get "type" event)
      then if equals_int (pos 1) (get "version" event)
        then item_read event (get "item" event)
        else raised (wrong_version (get "version" event))
      else raised (wrong_type (get "type" event))
  event_read (some _) = raised not_an_object

created_read : Outcome Poison (Fields × ℕ) → Outcome Poison Created
unfolding text_of
created_read (raised p) = raised p
created_read (ok (event, n)) = ok (n, or_dash (text_of (get "request_id" event)))

unfoldable pub parse_item_created : (String → Option Value) → String → Outcome Poison Created
unfolding event_read created_read
parse_item_created loads body = created_read (event_read "item.created" (loads body))

report_read : Fields → ℕ → Option String → Option String → Outcome Poison Report
unfolding text_of
report_read event n none by = raised no_processed_at
report_read event n (some at) none = raised no_processed_by
report_read event n (some at) (some by) = ok (record {
  item_id = n;
  processed_at = at;
  processed_by = by;
  request_id = text_of (get "request_id" event);
})

processed_read : Outcome Poison (Fields × ℕ) → Outcome Poison Report
unfolding report_read text_of
processed_read (raised p) = raised p
processed_read (ok (event, n)) =
    report_read event n (text_of (get "processed_at" event)) (text_of (get "processed_by" event))

unfoldable pub parse_item_processed : (String → Option Value) → String → Outcome Poison Report
unfolding event_read processed_read
parse_item_processed loads body = processed_read (event_read "item.processed" (loads body))
