-- ===== src/Github.antt =====
-- infra/self-service/src/github.py: the token of the App's installation, the dispatch of a workflow,
-- and the runs of a workflow that have not finished. HTTP and the signing of a token are not part of
-- the repository: `Http` has their answers. Every failure of a request is a GitHubError, whose text
-- only the log shows.
pub mod Inflight
pub mod Effects
use aws_devops_sdet_demo.Prelude.{
  ℕ, ◌+◌, ℤ, pos, ◌-ℤ◌, String, ◌+++◌, Bool, true, false, ◌||◌, Option, none, some, List, [], ◌∷◌,
  Value, null, bool, int, real, str, array, object, Items, nil, cons, Fields, end, field, get, get?,
  value_true, Exec, Outcome, ok, raised, pure, raise, lift, attempt, reraise, ◌>>=◌, leb, ltb, ◌==◌,
  if◌then◌else◌,
}
use aws_devops_sdet_demo.Control.Interface.{Error, exception}
use aws_devops_sdet_demo.Control.Decide.{Run}

-- A reply: its status, and what json.loads makes of its text (none: a ValueError).
pub record Reply : Type 0 where
  pub status : ℕ
  pub body : Option Value

pub record Http (W : Type 0) : Type 0 where
  -- method, URL, bearer token, body; it raises on a status of 400 and above and on any failure
  pub urlopen : String → String → Value → Option Value → Exec W String Reply
  -- the claims `iat` and `exp`, the app's id, the private key
  pub jwt_encode : ℤ → ℤ → String → String → Outcome String String
  -- `get_secret_value(SecretId=...)["SecretString"]`
  pub secret : String → Exec W String String

abbrev pub api : String
api = "https://api.github.com"

abbrev pub github_error : Error
github_error = exception "GitHubError"

-- `body.get(key)`, which only a dict has
abbrev pub get_from : String → Value → Outcome Error Value
get_from key (object fields) = ok (get key fields)
get_from key _ = raised (exception "AttributeError")

abbrev pub loaded_reply : Reply → Option Value → Outcome Error (ℕ × Value)
loaded_reply reply none = raised github_error
loaded_reply reply (some v) = ok (reply.status, v)

abbrev pub is_in_flight : String → Bool
is_in_flight s =
    s == "queued"
    || (s == "in_progress" || (s == "waiting" || (s == "requested" || s == "pending")))

-- `run.get("status") in IN_FLIGHT_STATUSES`: a list and a dict have no hash.
abbrev pub status_in_flight : Value → Outcome Error Bool
status_in_flight (str s) = ok (is_in_flight s)
status_in_flight (array _) = raised (exception "TypeError")
status_in_flight (object _) = raised (exception "TypeError")
status_in_flight _ = ok false

abbrev pub picked : Fields → Run
picked run = field "id" (get "id" run) (
    field "run_number" (get "run_number" run) (
      field "head_branch" (get "head_branch" run)
        (field "status" (get "status" run) (field "html_url" (get "html_url" run) end))))

abbrev keep_run : Outcome Error Bool → Fields → Outcome Error (List Run) → Outcome Error (List Run)
keep_run (raised e) run rest = raised e
keep_run (ok b) run (raised e) = raised e
keep_run (ok true) run (ok runs) = ok (picked run ∷ runs)
keep_run (ok false) run (ok runs) = ok runs

-- the comprehension over the runs
pub unfinished : Items → Outcome Error (List Run)
unfinished nil = ok []
unfinished (cons (object run) rest) =
    keep_run (status_in_flight (get "status" run)) run (unfinished rest)
unfinished (cons _ rest) = raised (exception "AttributeError")

-- What a `for` makes of `payload.get("workflow_runs", [])`; a text or a dict gives its parts, which
-- are texts.
listed : Option Value → Outcome Error (List Run)
unfolding unfinished
listed none = ok []
listed (some (array runs)) = unfinished runs
listed (some (str s)) = if s == "" then ok [] else raised (exception "AttributeError")
listed (some (object end)) = ok []
listed (some (object _)) = raised (exception "AttributeError")
listed (some _) = raised (exception "TypeError")

pub runs_of : Value → Outcome Error (List Run)
unfolding listed
runs_of (object fields) = listed (get? "workflow_runs" fields)
runs_of _ = raised (exception "AttributeError")

abbrev pub same_status : ℕ → ℕ → Bool
same_status a b = if leb a b then leb b a else false

abbrev pub workflow_url : String → String → String → String
workflow_url owner repo workflow =
    api +++ ("/repos/" +++ (owner +++ ("/" +++ (repo +++ ("/actions/workflows/" +++ workflow)))))

module _ {W : Type 0} (http : Http W) where
  -- `_request`
  pub request : String → String → Value → Option Value → Exec W Error (ℕ × Value)
  request method url token body = do
    reply ← reraise (λ _. github_error) (http.urlopen method url token body)
    lift (loaded_reply reply reply.body)

  app_jwt : String → String → ℕ → Outcome String String
  app_jwt app_id pem now = http.jwt_encode (pos now -ℤ pos 60) (pos (now + 600)) app_id pem

  abbrev checked_token : Value → Outcome Error Value
  checked_token token = if value_true token then ok token else raised github_error

  abbrev signed : Outcome String String → Exec W Error Value
  signed (ok jwt) = pure (str jwt)
  signed (raised name) = raise (exception name)

  unfoldable pub installation_token : String → String → String → ℕ → Exec W Error Value
  unfolding request app_jwt
  installation_token app_id pem installation_id now = do
    jwt ← signed (app_jwt app_id pem now)
    reply ←
        request "POST" (api +++ ("/app/installations/" +++ (installation_id +++ "/access_tokens")))
          jwt none
    token ← lift (get_from "token" reply.1)
    lift (checked_token token)

  unfoldable pub dispatch_workflow :
      Value → String → String → String → String → Fields → Exec W Error (Unit {0})
  unfolding request
  dispatch_workflow token owner repo workflow ref inputs = do
    reply ←
        request "POST" (workflow_url owner repo workflow +++ "/dispatches") token
          (some (object (field "ref" (str ref) (field "inputs" (object inputs) end))))
    if same_status reply.0 204 then pure tt else raise github_error

  unfoldable pub in_flight_runs : Value → String → String → String → Exec W Error (List Run)
  unfolding request runs_of
  in_flight_runs token owner repo workflow = do
    reply ← request "GET" (workflow_url owner repo workflow +++ "/runs?per_page=10") token none
    if same_status reply.0 200 then lift (runs_of reply.1) else raise github_error
