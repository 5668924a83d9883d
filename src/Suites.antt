-- ===== src/Suites.antt =====
-- scripts/fold-results.py: what a run's reports say of the suites of the inventory. The reports are
-- what the readers of the script made of them, none is the refusal, and a duration is a number of
-- milliseconds, which is what its three decimals hold.
pub mod Joined
use aws_devops_sdet_demo.Prelude.{
  ℕ, zero, suc, ◌+◌, String, ◌+++◌, Bool, true, false, not, ◌&&◌, ◌||◌, Option, none, some, List,
  [], ◌∷◌, ◌++◌, map, Dict, Value, lookup, put, keys, chain, is_some, is_empty, any, all, filter,
  length, sum, contains, sorted, ◌==◌, if◌then◌else◌,
}

pub data Status : Type 0 where
  passed failed skipped incomplete not_run : Status

pub record Known : Type 0 where
  pub name : String
  pub file : String
  pub asserts : Option Value

pub record Reported : Type 0 where
  pub name : String
  pub status : Status
  pub duration : Option ℕ

pub record Test : Type 0 where
  pub name : String
  pub file : String
  pub status : Status
  pub duration : Option ℕ
  pub asserts : Option Value

-- `seen`, none where a name is reported twice
unfoldable pub seen_of : List Reported → Dict Reported → Option (Dict Reported)
seen_of [] seen = some seen
seen_of (t ∷ rest) seen =
    if is_some (lookup t.name seen) then none else seen_of rest (put t.name t seen)

-- `d.pop(key, None)`, what it leaves
abbrev pub without : String → Dict Reported → Dict Reported
without key [] = []
without key ((k, t) ∷ rest) = if key == k then without key rest else (k, t) ∷ without key rest

abbrev pub test_of : Known → Option Reported → Test
test_of inv none = record {
  name = inv.name;
  file = inv.file;
  status = not_run;
  duration = none;
  asserts = inv.asserts;
}
test_of inv (some got) = record {
  name = inv.name;
  file = inv.file;
  status = got.status;
  duration = got.duration;
  asserts = inv.asserts;
}

-- the tests of the inventory, and what is left of the report
unfoldable pub join_known : List Known → Dict Reported → List Test × Dict Reported
join_known [] seen = ([], seen)
join_known (inv ∷ rest) seen =
    let others = join_known rest (without inv.name seen) in
    (test_of inv (lookup inv.name seen) ∷ others.0, others.1)

unfoldable pub join : List Known → List Reported → Option (List Test × List String)
unfolding seen_of join_known sorted
join inventory_tests reported =
    chain (seen_of reported []) λ seen.
      let joined = join_known inventory_tests seen in some (joined.0, sorted (keys joined.1))

abbrev pub is_passed : Status → Bool
is_passed passed = true
is_passed other = false

abbrev pub is_failed : Status → Bool
is_failed failed = true
is_failed other = false

abbrev pub is_unfinished : Status → Bool
is_unfinished incomplete = true
is_unfinished not_run = true
is_unfinished other = false

abbrev pub is_skipped : Status → Bool
is_skipped skipped = true
is_skipped other = false

abbrev pub is_incomplete : Status → Bool
is_incomplete incomplete = true
is_incomplete other = false

abbrev pub is_not_run : Status → Bool
is_not_run not_run = true
is_not_run other = false

unfoldable pub suite_status : List Test → Status
suite_status tests =
    if any (λ t. is_failed t.status) tests
    then failed
    else if any (λ t. is_unfinished t.status) tests
    then incomplete
    else if all (λ t. is_skipped t.status) tests
    then incomplete
    else passed

abbrev pub count_status : (Status → Bool) → List Test → ℕ
count_status p tests = length (filter (λ t. p t.status) tests)

abbrev pub durations : List Test → List ℕ
durations [] = []
durations (t ∷ rest) = elim t.duration [ none ↦ durations rest | some ms ↦ ms ∷ durations rest ]

pub record Suite : Type 0 where
  pub suite : String
  pub status : Status
  pub passed_count : ℕ
  pub failed_count : ℕ
  pub skipped_count : ℕ
  pub not_run_count : ℕ
  pub incomplete_count : ℕ
  pub duration : Option ℕ
  pub tests : List Test

unfoldable pub suite_of : String → List Test → Suite
unfolding suite_status
suite_of suite tests = record {
  suite = suite;
  status = suite_status tests;
  passed_count = count_status is_passed tests;
  failed_count = count_status is_failed tests;
  skipped_count = count_status is_skipped tests;
  not_run_count = count_status is_not_run tests;
  incomplete_count = count_status is_incomplete tests;
  duration = if is_empty (durations tests) then none else some (sum (durations tests));
  tests = tests;
}

pub record Folded : Type 0 where
  pub nodes : Dict Suite
  pub unobserved : List String
  pub unknown : Dict (List String)

abbrev pub nothing_folded : Folded
nothing_folded = record { nodes = []; unobserved = []; unknown = [] }

-- f"suite.{suite}.{environment}"
abbrev pub node_id : String → String → String
node_id suite environment = "suite." +++ (suite +++ ("." +++ environment))

abbrev pub suite_folded : String → String → List Test → List String → Folded → Folded
suite_folded node suite tests unknown folded = record folded {
  nodes = put node (suite_of suite tests) folded.nodes;
  unknown = if is_empty unknown then folded.unknown else put node unknown folded.unknown;
}

abbrev pub known_in : String → Dict (List Known) → List Known
known_in suite inventory = elim (lookup suite inventory) [ none ↦ [] | some known ↦ known ]

abbrev pub fold_suite :
    Dict (List Known)
    → Dict (List Reported)
    → List String
    → String
    → String
    → Folded
    → Option Folded
unfolding join suite_of
fold_suite inventory reported node_ids environment suite folded = elim (lookup suite reported) [
  | none ↦ some (
      if contains (node_id suite environment) node_ids
      then record folded { unobserved = folded.unobserved ++ (node_id suite environment ∷ []) }
      else folded)
  | some tests ↦
      if contains (node_id suite environment) node_ids
      then (chain (join (known_in suite inventory) tests)
          λ joined. some (suite_folded (node_id suite environment) suite joined.0 joined.1 folded))
      else none
]

unfoldable pub fold_suites :
    Dict (List Known)
    → Dict (List Reported)
    → List String
    → String
    → List String
    → Folded
    → Option Folded
unfolding fold_suite
fold_suites inventory reported node_ids environment [] folded = some folded
fold_suites inventory reported node_ids environment (suite ∷ rest) folded =
    chain (fold_suite inventory reported node_ids environment suite folded)
      (fold_suites inventory reported node_ids environment rest)

-- once the reports are read
unfoldable pub fold :
    Dict (List Known) → Dict (List Reported) → List String → String → Option Folded
unfolding fold_suites sorted
fold inventory reported node_ids environment =
    if is_empty reported
    then none
    else (chain
        (fold_suites inventory reported node_ids environment (sorted (keys inventory))
          nothing_folded)
        λ folded. some (record folded { unobserved = sorted folded.unobserved }))
