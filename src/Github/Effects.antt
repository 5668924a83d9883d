-- ===== src/Github/Effects.antt =====
-- On the calls of github.py: what they leave of a view of the world.
use aws_devops_sdet_demo.Prelude.{
  ℕ, String, Option, Value, Fields, Stable, stable_rules, Outcome, ok, raised,
}
use aws_devops_sdet_demo.Github.{
  Http, request, signed, installation_token, dispatch_workflow, in_flight_runs,
}

pub record HttpLaws {W V : Type 0} (http : Http W) (view : W → V) : Type 0 where
  pub urlopen_keeps :
      (method url : String) (token : Value) (body : Option Value)
      → Stable view (http.urlopen method url token body)
  pub secret_keeps : (name : String) → Stable view (http.secret name)

module _ {W V : Type 0} (http : Http W) (view : W → V) (quiet : HttpLaws http view) where
  request-Stable :
      (method url : String) (token : Value) (body : Option Value)
      → Stable view (request http method url token body)
  unfolding request
  request-Stable method url token body = search (stable_rules, quiet.urlopen_keeps)

  signed-Stable : (r : Outcome String String) → Stable view (signed http r)
  signed-Stable (ok jwt) = search stable_rules
  signed-Stable (raised name) = search stable_rules

  pub installation_token-Stable :
      (app_id pem installation_id : String) (now : ℕ)
      → Stable view (installation_token http app_id pem installation_id now)
  unfolding installation_token
  installation_token-Stable app_id pem installation_id now =
      search (stable_rules, request-Stable, signed-Stable)

  pub dispatch_workflow-Stable :
      (token : Value) (owner repo workflow ref : String) (inputs : Fields)
      → Stable view (dispatch_workflow http token owner repo workflow ref inputs)
  unfolding dispatch_workflow
  dispatch_workflow-Stable token owner repo workflow ref inputs =
      search (stable_rules, request-Stable)

  pub in_flight_runs-Stable :
      (token : Value) (owner repo workflow : String)
      → Stable view (in_flight_runs http token owner repo workflow)
  unfolding in_flight_runs
  in_flight_runs-Stable token owner repo workflow = search (stable_rules, request-Stable)
