-- ===== src/Tests/Orphans.antt =====
-- An environment with one managed log group and one security group that the state has lost, for
-- scripts/sweep_orphans.py and scripts/arns.py.
use aws_devops_sdet_demo.Prelude.{
  String, ◌≡◌, refl, true, false, List, [], ◌∷◌, Dict, Value, Items, Fields, array, object, nil,
  cons, end, field, str, contains, inr,
}
use aws_devops_sdet_demo.Arns.{parse}
use aws_devops_sdet_demo.Arns.Parts.{parse-arn}
use aws_devops_sdet_demo.Orphans.{state_identifiers, is_managed, without_suffix, decide_sweep}
use aws_devops_sdet_demo.Orphans.State.{
  Held, held_here, held_in_field, held_in_item, first_field, later_field, first_item,
  Held-is_managed,
}
use aws_devops_sdet_demo.Orphans.Findings.{is_clean, decide_sweep-clean, decide_sweep-left_behind}

abbrev log_group : String
log_group = "arn:aws:logs:us-west-2:1234:log-group:/demo/stage/app"

abbrev security_group : String
security_group = "arn:aws:ec2:us-west-2:1234:security-group/sg-0abc"

abbrev values : Fields
values =
    field "arn" (str "arn:aws:logs:us-west-2:1234:log-group:/demo/stage/app:*")
      (field "id" (str "/demo/stage/app") end)

abbrev resources : Items
resources =
    cons
      (object (field "type" (str "aws_cloudwatch_log_group") (field "values" (object values) end)))
      nil

abbrev state : Value
state = object (field "values" (object (field "resources" (array resources) end)) end)

abbrev tagged : List (Dict String)
tagged =
    (("ResourceARN", log_group) ∷ [])
    ∷ (("ResourceARN", security_group) ∷ [])
    ∷ (("Arn", "") ∷ [])
    ∷ []

abbrev controls : Dict (List Value)
controls = ("tagging-api", str "zone" ∷ []) ∷ ("configured-names", str "task-role" ∷ []) ∷ []

abbrev state_Held : Held "arn:aws:logs:us-west-2:1234:log-group:/demo/stage/app:*" state
state_Held = held_in_field "values" _ _ (first_field end) (
    held_in_field "resources" _ _ (first_field end) (
      held_in_item _ _ (first_item nil) (
        held_in_field "values" _ _ (later_field _ _ _ (first_field end))
          (held_here "arn" _ refl (first_field _)))))

parse-arn_example :
    parse "arn:aws:ec2:us-west-2:1234:security-group/sg-0abc" ≡ ("ec2", "security-group", "sg-0abc")
parse-arn_example =
    parse-arn "arn" "aws" "ec2" "us-west-2" "1234" "security-group" "sg-0abc" "/" refl refl refl
      refl refl refl refl refl

Held-is_managed_example : is_managed log_group (state_identifiers state) ≡ true
unfolding without_suffix
Held-is_managed_example =
    Held-is_managed "arn:aws:logs:us-west-2:1234:log-group:/demo/stage/app:*" log_group state refl
      state_Held (inr refl)

decide_sweep-clean_example :
    is_clean
      (decide_sweep tagged controls
        (state_identifiers state)
        (log_group ∷ security_group ∷ [])
        []).verdict
    ≡ false
unfolding is_managed state_identifiers
decide_sweep-clean_example =
    decide_sweep-clean tagged controls (state_identifiers state) (log_group ∷ security_group ∷ [])
      []

decide_sweep-left_behind_example :
    contains security_group
      (decide_sweep tagged controls
        (state_identifiers state)
        (log_group ∷ security_group ∷ [])
        []).left_behind
    ≡ true
unfolding is_managed state_identifiers
decide_sweep-left_behind_example =
    decide_sweep-left_behind security_group tagged controls (state_identifiers state)
      (log_group ∷ security_group ∷ []) []

queue_runs : parse "arn:aws:sqs:us-west-2:1234:demo-items" ≡ ("sqs", "queue", "demo-items")
unfolding parse
queue_runs = refl

malformed_runs : parse "arn:aws:sqs" ≡ ("", "", "")
unfolding parse
malformed_runs = refl

silent_runs :
    (decide_sweep tagged (("tagging-api", []) ∷ controls) [] [] []).silent_channels
    ≡ "tagging-api" ∷ []
unfolding decide_sweep
silent_runs = refl

gone_runs :
    (decide_sweep tagged controls [] [] []).reason
    ≡ "2 discovered, 0 still there and all of them managed, 2 discovered and not there according to the service. Nothing was left behind."
unfolding decide_sweep
gone_runs = refl
