-- ===== src/Cost/Pairing.antt =====
-- scripts/fold-cost.py: why two timelines cannot be the two halves of one cycle. A problem is a
-- constructor with the values that its text shows.
use aws_devops_sdet_demo.Prelude.{
  ℕ, ℤ, ltb_ℤ, String, Bool, not, ◌&&◌, Option, none, some, List, [], ◌∷◌, ◌++◌, keys, chain, any,
  is_empty, contains, length, ◌==◌, if◌then◌else◌,
}
use aws_devops_sdet_demo.Cost.{Timeline, parse_ts, resources_of}

pub data Problem : Type 0 where
  names_no_environment : String → Problem
  other_environment : String → String → String → Problem
  not_complete : Option String → Problem
  started_before : ℤ → ℤ → Problem
  created_none : ℕ → Problem

abbrev pub environment_problem : String → String → Timeline → List Problem
environment_problem environment role timeline = elim timeline.environment [
  | none ↦ names_no_environment role ∷ []
  | some named ↦ if named == environment then [] else other_environment role named environment ∷ []
]

abbrev pub status_problem : Timeline → List Problem
status_problem apply = elim apply.status [
  | none ↦ not_complete none ∷ []
  | some status ↦ if status == "complete" then [] else not_complete (some status) ∷ []
]

abbrev pub order_problem : Option ℤ → Option ℤ → List Problem
order_problem (some apply_end) (some destroy_start) =
    if ltb_ℤ destroy_start apply_end then started_before destroy_start apply_end ∷ [] else []
order_problem _ _ = []

-- Whether the two have an address in common.
abbrev pub common : List String → List String → Bool
common created deleted = any (λ a. contains a created) deleted

abbrev pub overlap_problem : List String → List String → List Problem
overlap_problem created deleted =
    if not (is_empty deleted) && not (common created deleted)
    then created_none (length deleted) ∷ []
    else []

module _ (strptime : String → Option ℤ) where
  abbrev pub destroy_problems : Timeline → Timeline → Option (List Problem)
  destroy_problems apply destroy = chain (parse_ts strptime apply.finished_at) λ apply_end.
      chain (parse_ts strptime destroy.started_at) λ destroy_start. some (
        order_problem apply_end destroy_start
        ++ overlap_problem (keys (resources_of apply ("create" ∷ "replace" ∷ [])))
            (keys (resources_of destroy ("delete" ∷ []))))

  unfoldable pub pairing_refusals : String → Timeline → Option Timeline → Option (List Problem)
  unfolding parse_ts resources_of
  pairing_refusals environment apply none =
      some (environment_problem environment "apply" apply ++ status_problem apply)
  pairing_refusals environment apply (some destroy) = chain (destroy_problems apply destroy) λ rest.
      some (
        environment_problem environment "apply" apply
        ++ (environment_problem environment "destroy" destroy ++ (status_problem apply ++ rest)))
