-- ===== src/Timeline/Steps.antt =====
-- What one event may do to an operation, as a relation between the operation before and after.
use aws_devops_sdet_demo.Prelude.{
  Yields, Yields-chain, Yields-if, Yields-some, ℤ, String, ◌≡◌, refl, true, not, ◌&&◌, Option, none,
  some, inl, inr, Bool-cases, Fields, get, contains, is_some, ap, ◌∙◌, ◌==◌,
}
use aws_devops_sdet_demo.Timeline.{
  TypeKey, nothing, number, text, Python, Operation, Tool, Counts, or_empty, parse_ts, iso,
  terminal_operations,
}
use aws_devops_sdet_demo.Timeline.Consume.{
  type_of, counted, timed, tool_of, text_of, summed, summary_read, if_named, diagnosed, address_of,
  plan_noted, planned_read, hook_noted, consume_hook, hook_types, consumed, consumed_as, consume,
}

pub data Step (etype : String) (event : Fields) (at : Option String) (op : Operation)
    : Operation → Type 0 where
  kept : Step etype event at op op
  tool_noted : (tool : Tool) → Step etype event at op (record op { tool = some tool })
  summed_up :
      (operation : String) (counts : Counts)
      → Step etype event at op (record op {
        saw_terminal_summary = true;
        command = some operation;
        counts = some counts;
      })
  plan_announced : Step etype event at op (record op { command = some "plan" })
  diagnosed_as : (diag : Fields) → Step etype event at op (diagnosed diag op)
  planned_as :
      (change : Fields) (address : String) → Step etype event at op (plan_noted change address op)
  hook_heard :
      (hook resource : Fields) (address : String)
      → or_empty (get "hook" event) ≡ some hook
      → or_empty (get "resource" hook) ≡ some resource
      → address_of resource ≡ some (some address)
      → type_of event ≡ some (text etype)
      → Step etype event at op (hook_noted etype hook resource address at op)

module _ (etype : String) (event : Fields) (at : Option String) (op : Operation) where
  summed-Step :
      (changes : Fields) (operation : String) → Step etype event at op (summed changes operation op)
  summed-Step changes operation = elim (Bool-cases (contains operation terminal_operations)) [
    | inl terminal ↦ rw terminal (summed_up operation _)
    | inr other ↦ elim (Bool-cases ((operation == "plan") && not (is_some op.command))) [
      | inl first ↦ rw (other, first) plan_announced
      | inr silent ↦ rw (other, silent) kept
    ]
  ]

  if_named-Step :
      (address : Option String) (f : String → Operation)
      → ((a : String) → address ≡ some a → Step etype event at op (f a))
      → Step etype event at op (if_named address op f)
  if_named-Step none f h = kept
  if_named-Step (some a) f h = h a refl

  summary-Step : (changes : Fields) → Yields (Step etype event at op) (summary_read changes op)
  summary-Step changes =
      Yields-chain (text_of (get "operation" changes))
        λ operation _. Yields-some (if_named-Step operation _ (λ o _. summed-Step changes o))

  planned-Step : Yields (Step etype event at op) (planned_read event op)
  planned-Step = Yields-chain (or_empty (get "change" event)) λ change _.
      Yields-chain (or_empty (get "resource" change)) λ resource _.
        Yields-chain (address_of resource)
          λ address _. Yields-some (if_named-Step address _ (λ a _. planned_as change a))

  hook-Step :
      type_of event ≡ some (text etype)
      → Yields (Step etype event at op) (consume_hook etype event at op)
  unfolding consume_hook
  hook-Step typed = Yields-chain (or_empty (get "hook" event)) λ hook found.
      Yields-chain (or_empty (get "resource" hook)) λ resource held.
        Yields-chain (address_of resource) λ address named. Yields-some (
          if_named-Step address _
            λ a e. hook_heard hook resource a found held (named ∙ ap some e) typed)

  -- An event that is consumed is one of the steps.
  pub consumed-Step :
      type_of event ≡ some (text etype)
      → Yields (Step etype event at op) (consumed etype event at op)
  unfolding consumed
  consumed-Step typed = Yields-if (etype == "version") (Yields-some (tool_noted (tool_of event))) (
      Yields-if (etype == "change_summary")
        (Yields-chain (or_empty (get "changes" event)) λ changes _. summary-Step changes)
        (Yields-if (etype == "diagnostic")
          (Yields-chain (or_empty (get "diagnostic" event))
            λ diag _. Yields-some (diagnosed_as diag))
          (Yields-if (etype == "planned_change") planned-Step
            (Yields-if (contains etype hook_types) (hook-Step typed) (Yields-some kept)))))

-- the type that a step goes by, empty where it is no text
abbrev pub name_of : TypeKey → String
name_of (text etype) = etype
name_of _ = ""

consumed_as-Step :
    (key : TypeKey) (event : Fields) (at : Option String) (op : Operation)
    → type_of event ≡ some key
    → Yields (Step (name_of key) event at op) (consumed_as key event at op)
unfolding consumed_as
consumed_as-Step (text etype) event at op typed = consumed-Step etype event at op typed
consumed_as-Step nothing event at op typed = Yields-some kept
consumed_as-Step (number n) event at op typed = Yields-some kept

-- What one event leaves of an operation: the counting, the timing, then a step.
pub record Event (py : Python) (event : Fields) (op after : Operation) : Type 0 where
  pub key : TypeKey
  pub typed : type_of event ≡ some key
  pub ts : Option ℤ
  pub step : Step (name_of key) event (iso py ts) (timed ts (counted key op)) after

module _ (py : Python) where
  pub consume-Event :
      (event : Fields) (op : Operation) → Yields (Event py event op) (consume py event op)
  unfolding consume
  consume-Event event op = Yields-chain (type_of event) λ key typed.
      Yields-chain (parse_ts py (get "@timestamp" event)) λ ts _. record {
        at = λ after e. record {
          key = key;
          typed = typed;
          ts = ts;
          step =
              (consumed_as-Step key event (iso py ts) (timed ts (counted key op)) typed).at after e;
        };
      }
