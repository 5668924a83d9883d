-- ===== src/Tests/Suites.antt =====
-- A suite of three tests of which one was not reported, for scripts/fold-results.py.
use aws_devops_sdet_demo.Prelude.{
  ℕ, String, ◌≡◌, refl, false, not, ◌&&◌, Option, none, some, List, [], ◌∷◌, map, contains,
}
use aws_devops_sdet_demo.Suites.{
  Status, passed, failed, skipped, incomplete, not_run, Known, Reported, Test, join, suite_status,
  is_passed, Folded, nothing_folded, fold,
}
use aws_devops_sdet_demo.Suites.Joined.{suite_status-is_passed, join-names}

abbrev known : String → Known
known name = record { name = name; file = "test_items.py"; asserts = none }

abbrev reported : String → Status → Reported
reported name status = record { name = name; status = status; duration = some 250 }

abbrev test : String → Status → Option ℕ → Test
test name status duration = record {
  name = name;
  file = "test_items.py";
  status = status;
  duration = duration;
  asserts = none;
}

abbrev inventory : List Known
inventory = known "create" ∷ known "read" ∷ known "delete" ∷ []

abbrev report : List Reported
report = reported "read" skipped ∷ reported "create" passed ∷ reported "rename" passed ∷ []

abbrev tests : List Test
tests =
    test "create" passed (some 250)
    ∷ test "read" skipped (some 250)
    ∷ test "delete" not_run none
    ∷ []

twice_runs : join inventory (reported "read" passed ∷ reported "read" failed ∷ []) ≡ none
unfolding join
twice_runs = refl

status_runs : suite_status tests ≡ incomplete
unfolding suite_status
status_runs = refl

abbrev or_folded : Option Folded → Folded
or_folded none = nothing_folded
or_folded (some folded) = folded

fold_runs :
    (or_folded (
      fold
        (("api", inventory) ∷ ("ui", []) ∷ [])
        (("api", report) ∷ [])
        ("suite.api.stage" ∷ "suite.ui.stage" ∷ [])
        "stage")).unobserved
    ≡ "suite.ui.stage" ∷ []
unfolding fold
fold_runs = refl

suite_status-is_passed_example : is_passed (suite_status tests) ≡ false
suite_status-is_passed_example = suite_status-is_passed tests

join-names_example :
    (map (λ t. t.name) tests ≡ map (λ i. i.name) inventory)
    × (contains "rename" ("rename" ∷ []) ≡ (
        contains "rename" (map (λ t. t.name) report)
        && not (contains "rename" (map (λ i. i.name) inventory))))
unfolding join
join-names_example = join-names "rename" inventory report tests ("rename" ∷ []) refl
