-- ===== src/Timeline/Verdict.antt =====
-- scripts/fold-timeline.py: the status of an operation with its reason, and of a whole timeline.
use aws_devops_sdet_demo.Prelude.{
  ℤ, pos, eqb_ℤ, String, ◌+++◌, ◌≡◌, refl, sym, ap, ◌∙◌, Bool, true, false, not, ◌||◌, ◌&&◌, Option,
  none, some, List, [], ◌∷◌, map, inl, inr, Option-cases, values, decimal_ℤ, any, all, is_empty,
  and_false, if◌then◌else◌,
}
use aws_devops_sdet_demo.Timeline.{Status, incomplete, complete, errored, Resource, Operation}

abbrev pub is_complete : Status → Bool
is_complete complete = true
is_complete other = false

abbrev pub is_incomplete : Status → Bool
is_incomplete incomplete = true
is_incomplete other = false

abbrev pub is_errored : Status → Bool
is_errored errored = true
is_errored other = false

abbrev pub any_errored : Operation → Bool
any_errored op = any (λ r. is_errored r.status) (values op.resources)

abbrev pub any_unfinished : Operation → Bool
any_unfinished op = any (λ r. not (is_complete r.status)) (values op.resources)

unfoldable pub status : Operation → Status
status op = elim op.exit_code [
  | none ↦ incomplete
  | some code ↦
      if any_errored op
      then errored
      else if not (eqb_ℤ code (pos 0))
      then errored
      else if not op.saw_terminal_summary
      then incomplete
      else if any_unfinished op
      then incomplete
      else complete
]

unfoldable pub reason : Operation → Option String
unfolding decimal_ℤ
reason op = elim op.exit_code [
  | none ↦ some "terraform did not return: no exit code was recorded"
  | some code ↦
      if any_errored op
      then some "at least one resource errored"
      else if not (eqb_ℤ code (pos 0))
      then some ("terraform exited " +++ decimal_ℤ code)
      else if not op.saw_terminal_summary
      then some "the stream has no terminal change_summary"
      else if any_unfinished op
      then some "a resource started and was never completed"
      else none
]

-- the weakest of the operations' statuses
unfoldable pub weakest : List Status → Status
weakest statuses =
    if is_empty statuses
    then incomplete
    else if any is_incomplete statuses
    then incomplete
    else if any is_errored statuses
    then errored
    else complete

unfoldable pub timeline_status : List Operation → Status
unfolding status weakest
timeline_status operations = weakest (map status operations)

-- Terraform returned, and said that all went well.
abbrev pub exited_zero : Option ℤ → Bool
exited_zero none = false
exited_zero (some code) = eqb_ℤ code (pos 0)

one_more :
    (s : Status) (whole bad unfinished : Bool)
    → whole ≡ (not bad && not unfinished)
    → (is_complete s && whole)
      ≡ (not (is_errored s || bad) && not (not (is_complete s) || unfinished))
one_more complete whole bad unfinished h = h
one_more incomplete whole bad unfinished h = sym (and_false (not bad))
one_more errored whole bad unfinished h = refl

-- All are complete where none is in error and none is unfinished.
all_complete-any :
    (rs : List Resource)
    → all (λ r. is_complete r.status) rs
      ≡ (not (any (λ r. is_errored r.status) rs) && not (any (λ r. not (is_complete r.status)) rs))
all_complete-any [] = refl
all_complete-any (r ∷ rs) = one_more r.status _ _ _ (all_complete-any rs)

graded :
    (code bad summary unfinished whole : Bool)
    → whole ≡ (not bad && not unfinished)
    → is_complete (
        if bad
        then errored
        else if not code
        then errored
        else if not summary
        then incomplete
        else if unfinished
        then incomplete
        else complete)
      ≡ (code && (summary && whole))
graded true true summary unfinished whole h = rw h (sym (and_false summary))
graded false true summary unfinished whole h = refl
graded false false summary unfinished whole h = refl
graded true false false unfinished whole h = refl
graded true false true true whole h = sym h
graded true false true false whole h = sym h

-- An operation is complete exactly when terraform returned zero, the stream holds the terminal
-- summary, and every resource that a hook named is complete.
pub status_complete :
    (op : Operation)
    → is_complete (status op) ≡ (
        exited_zero op.exit_code
        && (op.saw_terminal_summary && all (λ r. is_complete r.status) (values op.resources)))
unfolding status
status_complete op = elim (Option-cases op.exit_code) [
  | inl dead ↦ rw dead refl
  | inr (code, back) ↦ rw back (
      graded (eqb_ℤ code (pos 0)) (any_errored op) op.saw_terminal_summary (any_unfinished op) _
        (all_complete-any (values op.resources)))
]

none_weaker :
    (s : Status) (whole weak bad : Bool)
    → whole ≡ (not weak && not bad)
    → (is_complete s && whole) ≡ (not (is_incomplete s || weak) && not (is_errored s || bad))
none_weaker complete whole weak bad h = h
none_weaker incomplete whole weak bad h = refl
none_weaker errored whole weak bad h = sym (and_false (not weak))

all_complete-statuses :
    (statuses : List Status)
    → all is_complete statuses ≡ (not (any is_incomplete statuses) && not (any is_errored statuses))
all_complete-statuses [] = refl
all_complete-statuses (s ∷ rest) = none_weaker s _ _ _ (all_complete-statuses rest)

by_rank :
    (weak bad : Bool)
    → is_complete (if weak then incomplete else if bad then errored else complete)
      ≡ (not weak && not bad)
by_rank true bad = refl
by_rank false true = refl
by_rank false false = refl

weakest_complete :
    (statuses : List Status)
    → is_complete (weakest statuses) ≡ (not (is_empty statuses) && all is_complete statuses)
unfolding weakest
weakest_complete [] = refl
weakest_complete (s ∷ rest) =
    by_rank (any is_incomplete (s ∷ rest)) (any is_errored (s ∷ rest))
    ∙ sym (all_complete-statuses (s ∷ rest))

all-map :
    (operations : List Operation)
    → all is_complete (map status operations) ≡ all (λ op. is_complete (status op)) operations
all-map [] = refl
all-map (op ∷ rest) = ap (λ b. is_complete (status op) && b) (all-map rest)

all-statuses :
    (operations : List Operation)
    → (not (is_empty (map status operations)) && all is_complete (map status operations))
      ≡ (not (is_empty operations) && all (λ op. is_complete (status op)) operations)
all-statuses [] = refl
all-statuses (op ∷ rest) = ap (λ b. is_complete (status op) && b) (all-map rest)

-- A timeline is complete exactly when it has an operation and all its operations are complete.
pub timeline_status_complete :
    (operations : List Operation)
    → is_complete (timeline_status operations)
      ≡ (not (is_empty operations) && all (λ op. is_complete (status op)) operations)
unfolding timeline_status
timeline_status_complete operations =
    weakest_complete (map status operations) ∙ all-statuses operations
