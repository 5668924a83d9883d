-- ===== src/Tests/Timeline.antt =====
-- Streams of an apply that ends and of one that is killed, for scripts/fold-timeline.py, with
-- stand-ins for Python's readers.
use aws_devops_sdet_demo.Prelude.{
  values, ℕ, ◌+◌, pos, String, ◌≡◌, refl, true, false, ◌&&◌, not, Option, none, some, List, [], ◌∷◌,
  Value, Fields, end, field, object, str, int, null, sum, all, is_some, is_empty, ◌==◌,
  if◌then◌else◌, decimal_ℤ,
}
use aws_devops_sdet_demo.Timeline.{nothing, text, tallies, Python, Operation, operation, complete}
use aws_devops_sdet_demo.Timeline.Consume.{consume_all}
use aws_devops_sdet_demo.Timeline.Verdict.{
  is_complete, status, reason, timeline_status, status_complete, timeline_status_complete,
}
use aws_devops_sdet_demo.Timeline.Reading.{Beside, read, label_of, collect_streams, read-accounted}
use aws_devops_sdet_demo.Timeline.Order.{IsFolded, operation-IsFolded, consume_all-IsFolded}
use aws_devops_sdet_demo.Timeline.Pending.{consume_all-unanswered}
use aws_devops_sdet_demo.Timeline.Document.{
  Folded, folded_of, sorted_types, Timeline, to_json, build,
}
use aws_devops_sdet_demo.Timeline.Listed.{Lists, Distinct, to_json-Lists_all}
use aws_devops_sdet_demo.Timeline.Made.{consume_all-to_json}

abbrev hook : String → Value
hook action = object (
    field "action" (str action)
      (field "resource" (object (field "addr" (str "aws_ecs_service.app") end)) end))

abbrev start : Fields
start =
    field "type" (str "apply_start")
      (field "@timestamp" (str "10:00") (field "hook" (hook "create") end))

abbrev done : Fields
done =
    field "type" (str "apply_complete")
      (field "@timestamp" (str "10:01") (field "hook" (hook "create") end))

abbrev summary : Fields
summary =
    field "type" (str "change_summary") (
      field "changes" (object (field "operation" (str "apply") (field "add" (int (pos 1)) end)))
        end)

-- a stream of names, each an event
abbrev loads : String → Option Value
loads s =
    if s == "start"
    then some (object start)
    else if s == "done"
    then some (object done)
    else if s == "summary"
    then some (object summary)
    else none

abbrev py : Python
py = record {
  fromisoformat = λ s. some (pos (if s == "10:00" then 0 else 60000000));
  strftime = λ at. decimal_ℤ at;
  strip = λ s. s;
  split = λ s. s ∷ [];
  isdigit = λ s. s == "01";
  repr = λ s. s;
  loads = loads;
  seconds = λ micros. int micros;
}

abbrev new : Operation
new = operation 1 "apply" "01-apply.jsonl"

abbrev beside : Beside
beside = record { cmd = some "apply"; rc = some "0"; rc_name = "01-apply.rc" }

abbrev full_stream : List String
full_stream = "start" ∷ "" ∷ "done" ∷ "half a li" ∷ "summary" ∷ []

abbrev or_new : Option Operation → Operation
or_new none = new
or_new (some op) = op

abbrev finished : Operation
unfolding read
finished = or_new (read py beside full_stream new)

abbrev killed : Operation
unfolding consume_all
killed = or_new (consume_all py (start ∷ summary ∷ []) new)

finished_runs : status finished ≡ complete
unfolding read status
finished_runs = refl

killed_runs :
    reason (record killed { exit_code = some (pos 0) })
    ≡ some "a resource started and was never completed"
unfolding consume_all reason
killed_runs = refl

label_runs : label_of py "01-apply" ≡ "apply"
unfolding label_of
label_runs = refl

streams_run :
    collect_streams py 1 (("01-apply", "01-apply.jsonl") ∷ ("notes", "notes.jsonl") ∷ [])
    ≡ operation 1 "apply" "01-apply.jsonl" ∷ operation 2 "notes" "notes.jsonl" ∷ []
unfolding collect_streams
streams_run = refl

status_complete_example : is_complete (status finished) ≡ true
unfolding read
status_complete_example = status_complete finished

timeline_status_complete_example : is_complete (timeline_status (finished ∷ killed ∷ [])) ≡ (
    not (is_empty (finished ∷ killed ∷ []))
    && all (λ op. is_complete (status op)) (finished ∷ killed ∷ []))
timeline_status_complete_example = timeline_status_complete (finished ∷ killed ∷ [])

read-accounted_example : sum (tallies finished.event_types) + finished.unparsed_lines ≡ 4
unfolding read
read-accounted_example =
    read-accounted py beside full_stream 1 "apply" "01-apply.jsonl" finished refl

consume_all-IsFolded_example : IsFolded killed
unfolding consume_all
consume_all-IsFolded_example =
    consume_all-IsFolded py (start ∷ summary ∷ []) new killed
      (operation-IsFolded 1 "apply" "01-apply.jsonl") refl

consume_all-unanswered_example : is_complete (status killed) ≡ false
unfolding consume_all
consume_all-unanswered_example =
    consume_all-unanswered py "aws_ecs_service.app" (start ∷ summary ∷ []) new killed refl refl refl
      refl

-- An event of type null is counted, and the document is then not made: the keys have no order.
abbrev untyped : Fields
untyped = field "type" null end

abbrev mixed : Operation
unfolding consume_all
mixed = or_new (consume_all py (start ∷ untyped ∷ []) new)

mixed_counts : mixed.event_types ≡ (text "apply_start", 1) ∷ (nothing, 1) ∷ []
unfolding consume_all
mixed_counts = refl

consume_all-to_json_example : is_some (to_json py mixed) ≡ false
unfolding consume_all
consume_all-to_json_example =
    consume_all-to_json py (start ∷ untyped ∷ []) 1 "apply" "01-apply.jsonl" mixed refl

killed_made : is_some (to_json py killed) ≡ true
unfolding consume_all
killed_made = consume_all-to_json py (start ∷ summary ∷ []) 1 "apply" "01-apply.jsonl" killed refl

abbrev built : Option Timeline
unfolding read build
built = build py "stage" "10:02" (finished ∷ []) null

abbrev created_in : Option Timeline → ℕ
created_in none = 0
created_in (some timeline) = timeline.totals.resources_created

built_runs : created_in built ≡ 1
unfolding read build
built_runs = refl

abbrev killed_folded : Folded
unfolding consume_all status reason
killed_folded = folded_of py killed (values killed.resources) [] killed.event_types

killed_folds : to_json py killed ≡ some killed_folded
unfolding consume_all to_json status reason sorted_types
killed_folds = refl

to_json-Lists_all_example :
    Lists killed killed_folded × Distinct killed.resources × Distinct killed.planned
unfolding consume_all
to_json-Lists_all_example =
    to_json-Lists_all py (start ∷ summary ∷ []) 1 "apply" "01-apply.jsonl" killed killed_folded refl
      killed_folds
