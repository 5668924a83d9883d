-- ===== src/Tests/Adoption.antt =====
-- A role with its policy, two security groups of one name and a kind without a rule, for
-- scripts/adopt_orphans.py.
use aws_devops_sdet_demo.Prelude.{
  ◌≤◌, String, ◌+++◌, ◌≡◌, refl, true, false, [], ◌∷◌, Dict, filter, length,
}
use aws_devops_sdet_demo.Adoption.{
  Rule, adopt, unadoptable, no_rule, duplicate, Dependents, Plan, claims, plan,
}
use aws_devops_sdet_demo.Adoption.Once.{plan-once}

abbrev rules : Dict Rule
rules =
    (
      "ec2:security-group",
      record {
        addresses = ("alb-sg", "module.alb.aws_security_group.alb") ∷ [];
        import_id = λ arn. arn.tail;
        name_from = λ arn. arn.tail;
        from_tag = true;
      },
    )
    ∷ (
      "iam:role",
      record {
        addresses = ("eks-node", "module.eks.aws_iam_role.node") ∷ [];
        import_id = λ arn. arn.tail;
        name_from = λ arn. arn.tail;
        from_tag = false;
      },
    )
    ∷ []

abbrev dependents : Dependents
dependents =
    ("module.eks.aws_iam_role.node", ("module.eks.policy", λ prefix role. role +++ ":p") ∷ []) ∷ []

abbrev first_group : String
first_group = "arn:aws:ec2:us-west-2:1234:security-group/sg-1"

abbrev second_group : String
second_group = "arn:aws:ec2:us-west-2:1234:security-group/sg-2"

abbrev role : String
role = "arn:aws:iam::1234:role/demo-lab-eks-node"

abbrev odd : String
odd = "arn:aws:odd::1234:thing/x"

abbrev tags : Dict (Dict String)
tags =
    (first_group, ("Name", "demo-lab-alb-sg") ∷ [])
    ∷ (second_group, ("Name", "demo-lab-alb-sg") ∷ [])
    ∷ []

abbrev planned : Plan
unfolding plan
planned = plan [] rules dependents (role ∷ second_group ∷ odd ∷ first_group ∷ []) tags "demo-lab"

parents_run : planned.parents ≡ adopt role "module.eks.aws_iam_role.node" "demo-lab-eks-node" ∷ []
unfolding plan
parents_run = refl

dependents_run : planned.dependents ≡ adopt role "module.eks.policy" "demo-lab-eks-node:p" ∷ []
unfolding plan
dependents_run = refl

left_run :
    planned.left
    ≡ unadoptable first_group (duplicate "module.alb.aws_security_group.alb")
      ∷ unadoptable second_group (duplicate "module.alb.aws_security_group.alb")
      ∷ unadoptable odd no_rule
      ∷ []
unfolding plan
left_run = refl

plan-once_example :
    length (
      filter
        (claims "module.alb.aws_security_group.alb")
        (plan [] rules dependents
          (role ∷ second_group ∷ odd ∷ first_group ∷ [])
          tags
          "demo-lab").parents)
    ≤ 1
plan-once_example =
    plan-once "module.alb.aws_security_group.alb" [] rules dependents
      (role ∷ second_group ∷ odd ∷ first_group ∷ []) tags "demo-lab"
