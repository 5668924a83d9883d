-- ===== src/Timeline/Reading.antt =====
-- scripts/fold-timeline.py: the files beside one stream, its lines, and the streams of a directory.
use Prim.Native.Char.{Char}
use aws_devops_sdet_demo.Prelude.{
  Yields, Yields-chain, Yields-some, ℕ, suc, ◌+◌, ℤ, String, ◌+++◌, ◌≡◌, refl, ◌∙◌, Bool, Option,
  none, some, List, [], ◌∷◌, ◌++◌, inl, inr, Bool-cases, Value, Fields, object, str, null,
  parse_int, chain, sum, arith, ◌==◌, if◌then◌else◌,
}
use aws_devops_sdet_demo.Arns.{cut, one}
use aws_devops_sdet_demo.Timeline.Steps.{
  Step, kept, tool_noted, summed_up, plan_announced, diagnosed_as, planned_as, hook_heard,
  consume-Event,
}
use aws_devops_sdet_demo.Timeline.{
  TypeKey, TypeCounts, same_type, count_type, tallies, Python, Operation, operation, Diagnostic,
}
use aws_devops_sdet_demo.Timeline.Consume.{timed, counted, consume}

-- What tf-stream.sh wrote beside a stream; none is a file that is missing.
pub record Beside : Type 0 where
  pub cmd : Option String
  pub rc : Option String
  pub rc_name : String

abbrev pub event_of : Option Value → Option Fields
event_of (some (object event)) = some event
event_of other = none

abbrev pub first_word : List String → Option String
first_word [] = none
first_word (word ∷ rest) = some word

module _ (py : Python) where
  abbrev pub with_argv : Option String → Operation → Operation
  with_argv none op = op
  with_argv (some text) op = if py.strip text == "" then op else record op {
    argv = some (py.strip text);
    invoked = first_word (py.split (py.strip text));
  }

  abbrev pub unreadable : String → String → Diagnostic
  unreadable rc_name text = record {
    severity = str "error";
    summary = str "unreadable exit code";
    detail = str (rc_name +++ (" contains " +++ py.repr text));
    address = null;
  }

  -- by what `int` makes of the text
  abbrev pub exited : String → String → Option ℤ → Operation → Operation
  exited rc_name text (some code) op = record op { exit_code = some code }
  exited rc_name text none op = record op {
    exit_code = none;
    diagnostics = op.diagnostics ++ (unreadable rc_name text ∷ []);
  }

  abbrev pub with_exit_code : String → Option String → Operation → Operation
  with_exit_code rc_name none op = op
  with_exit_code rc_name (some text) op =
      exited rc_name (py.strip text) (parse_int (py.strip text)) op

  -- a line that is not blank, by the object that it holds
  unfoldable pub read_event : Option Fields → Operation → Option Operation
  unfolding consume
  read_event none op = some (record op { unparsed_lines = op.unparsed_lines + 1 })
  read_event (some event) op = consume py event op

  unfoldable pub read_lines : List String → Operation → Option Operation
  unfolding read_event
  read_lines [] op = some op
  read_lines (line ∷ rest) op =
      if py.strip line == ""
      then read_lines rest op
      else chain (read_event (event_of (py.loads (py.strip line))) op) (read_lines rest)

  unfoldable pub read : Beside → List String → Operation → Option Operation
  unfolding read_lines parse_int
  read beside lines op =
      read_lines lines (with_exit_code beside.rc_name beside.rc (with_argv beside.cmd op))

  abbrev is_dash : Char → Bool
  is_dash c = one c == "-"

  unfoldable pub label_of : String → String
  unfolding cut
  label_of stem = elim (cut is_dash stem) [
    | none ↦ stem
    | some (number, label) ↦ if py.isdigit number then label else stem
  ]

  -- `enumerate(..., start=index)` over the sorted streams, each by its stem and its name
  unfoldable pub collect_streams : ℕ → List (String × String) → List Operation
  unfolding label_of
  collect_streams index [] = []
  collect_streams index ((stem, name) ∷ rest) =
      operation index (label_of stem) name ∷ collect_streams (suc index) rest

  -- the lines that are not blank
  abbrev pub written : List String → ℕ
  written [] = 0
  written (line ∷ rest) = if py.strip line == "" then written rest else suc (written rest)

sum-count_type :
    (key : TypeKey) (d : TypeCounts) → sum (tallies (count_type key d)) ≡ sum (tallies d) + 1
sum-count_type key [] = refl
sum-count_type key ((k, n) ∷ rest) = elim (Bool-cases (same_type k key)) [
  | inl same ↦ rw same (omega arith)
  | inr later ↦ rw later (omega (arith, sum-count_type key rest))
]

-- the events and the lines that were no events
abbrev pub accounted : Operation → ℕ
accounted op = sum (tallies op.event_types) + op.unparsed_lines

Step-accounted :
    {etype : String} {event : Fields} {at : Option String} {op after : Operation}
    → Step etype event at op after
    → accounted after ≡ accounted op
Step-accounted kept = refl
Step-accounted (tool_noted tool) = refl
Step-accounted (summed_up operation counts) = refl
Step-accounted plan_announced = refl
Step-accounted (diagnosed_as diag) = refl
Step-accounted (planned_as change address) = refl
Step-accounted (hook_heard hook resource address found held named typed) = refl

counted-accounted :
    (key : TypeKey) (ts : Option ℤ) (op : Operation)
    → accounted (timed ts (counted key op)) ≡ accounted op + 1
counted-accounted key none op = omega (arith, sum-count_type key op.event_types)
counted-accounted key (some at) op = omega (arith, sum-count_type key op.event_types)

module _ (py : Python) where
  abbrev OneMore : Operation → Operation → Type 0
  OneMore op after = accounted after ≡ accounted op + 1

  read_event-Yields :
      (event : Option Fields) (op : Operation) → Yields (OneMore op) (read_event py event op)
  unfolding read_event
  read_event-Yields none op = Yields-some (omega arith)
  read_event-Yields (some event) op = record {
    at = λ after e.
        let taken = (consume-Event py event op).at after e in
        Step-accounted taken.step ∙ counted-accounted taken.key taken.ts op;
  }

  read_lines-Yields :
      (lines : List String) (op : Operation)
      → Yields (λ after. accounted after ≡ accounted op + written py lines) (read_lines py lines op)
  unfolding read_lines
  read_lines-Yields [] op = Yields-some (omega arith)
  read_lines-Yields (line ∷ rest) op = elim (Bool-cases (py.strip line == "")) [
    | inl blank ↦ rw blank (read_lines-Yields rest op)
    | inr full ↦ rw full (
        Yields-chain (read_event py (event_of (py.loads (py.strip line))) op) λ mid e. record {
          at = λ after e'. omega (
            arith,
            (read_event-Yields (event_of (py.loads (py.strip line))) op).at mid e,
            (read_lines-Yields rest mid).at after e',
          );
        })
  ]

  with_argv-accounted :
      (cmd : Option String) (op : Operation) → accounted (with_argv py cmd op) ≡ accounted op
  with_argv-accounted none op = refl
  with_argv-accounted (some text) op = elim (Bool-cases (py.strip text == "")) [
    | inl blank ↦ rw blank refl
    | inr full ↦ rw full refl
  ]

  exited-accounted :
      (rc_name text : String) (code : Option ℤ) (op : Operation)
      → accounted (exited py rc_name text code op) ≡ accounted op
  exited-accounted rc_name text none op = refl
  exited-accounted rc_name text (some code) op = refl

  with_exit_code-accounted :
      (rc_name : String) (rc : Option String) (op : Operation)
      → accounted (with_exit_code py rc_name rc op) ≡ accounted op
  with_exit_code-accounted rc_name none op = refl
  with_exit_code-accounted rc_name (some text) op =
      exited-accounted rc_name (py.strip text) (parse_int (py.strip text)) op

  -- After a stream is read, every line that is not blank is counted once: as an event of some type,
  -- or as a line that was no event.
  pub read-accounted :
      (beside : Beside) (lines : List String) (order : ℕ) (label name : String) (after : Operation)
      → read py beside lines (operation order label name) ≡ some after
      → sum (tallies after.event_types) + after.unparsed_lines ≡ written py lines
  unfolding read
  read-accounted beside lines order label name after h = omega (
    arith,
    (read_lines-Yields lines _).at after h,
    with_exit_code-accounted beside.rc_name beside.rc
        (with_argv py beside.cmd (operation order label name)),
    with_argv-accounted beside.cmd (operation order label name),
  )
