-- ===== src/Launch.antt =====
-- infra/self-service/src/launch_handler.py: the handler of the Function URL. The configuration read
-- from the environment is a record; the clock, the random texts and Python's `repr` of a float, a
-- list or a dict are arguments.
pub mod Effects
use Prim.Native.String.{slice}
use text.Mathlib.Text.{find?}
use aws_devops_sdet_demo.Prelude.{
  ℕ, zero, suc, ◌+◌, ℤ, pos, ◌-ℤ◌, leb_ℤ, String, ◌+++◌, Bool, true, false, ◌&&◌, ◌||◌, not, Option,
  none, some, List, [], ◌∷◌, Value, null, bool, int, real, str, array, object, Fields, end, field,
  get, get?, Dict, lookup, is_some, decimal, decimal_ℤ, Exec, Outcome, ok, raised, pure, raise,
  lift, attempt, reraise, ◌>>=◌, ◌>>◌, ◌==◌, if◌then◌else◌,
}
use aws_devops_sdet_demo.Control.Interface.{
  Error, store_unavailable, exception, ControlStore, Message, Decision,
}
use aws_devops_sdet_demo.Control.Quota.{ZoneInfo, zone_name, quota_day, seconds_until_quota_reset}
use aws_devops_sdet_demo.Control.Decide.{
  Press, Run, kill_switch_refusal, release_quietly, decide_launch, error_name,
}
use aws_devops_sdet_demo.Github.{
  Http, get_from, installation_token, dispatch_workflow, in_flight_runs,
}

pub record Config : Type 0 where
  pub owner : String
  pub repo : String
  pub app_id : String
  pub install_id : String
  pub secret_name : String
  pub workflow : String
  pub ref : String
  pub ttl_minutes : ℕ
  pub daily_cap : ℕ
  pub quota_timezone : String
  pub nonce_ttl : ℕ

-- The parts of the event that the handler reads. `body` is what json.loads makes of the body's text
-- (none: a ValueError), where there is a text and it is not empty.
pub record Event : Type 0 where
  pub method : Option String
  pub raw_query_string : String
  pub query_string_parameters : Dict String
  pub body : Option (Option Value)

-- The bodies of the replies.
pub data Body : Type 0 where
  refused_body : String → Message → Option Fields → Body
  unavailable : String → Body
  -- the day, the cap, the launches of the day, those left, the seconds to the reset
  quota : String → ℕ → ℤ → ℤ → ℤ → Body
  -- the nonce, the launch id, the nonce's lifetime, the minutes of a launch, the cap
  issued : String → String → ℕ → ℕ → ℕ → Body
  bad_method not_json : Body
  dispatch_failed : String → Body
  -- the launch id, the deadline, the launches of the day
  launched : Value → Value → Value → Body

pub record Response : Type 0 where
  pub status_code : ℕ
  pub body : Body

abbrev pub response : ℕ → Body → Response
response status body = record { status_code = status; body = body }

abbrev pub refused : Decision → Response
refused d = response d.status (refused_body d.code d.message d.detail)

-- `str(v)`, with Python's `repr` of what is neither a text nor a number.
pub value_str : (Value → String) → Value → String
value_str repr null = "None"
value_str repr (bool true) = "True"
value_str repr (bool false) = "False"
value_str repr (int n) = decimal_ℤ n
value_str repr (str s) = s
value_str repr v = repr v

-- `str(body.get(key, ""))`
pub text_field : (Value → String) → String → Value → Outcome Error String
unfolding value_str
text_field repr key (object fields) =
    ok (elim (get? key fields) [ none ↦ "" | some v ↦ value_str repr v ])
text_field repr key _ = raised (exception "AttributeError")

-- A world with the token that a press has minted.
abbrev pub Minting : Type 0 → Type 0
Minting W = W × Option Value

abbrev pub keeping : {W E A : Type 0} → Exec W E A → Exec (Minting W) E A
keeping m (w, token) = ((m w).0, ((m w).1, token))

abbrev pub minting_store : {W : Type 0} → ControlStore W → ControlStore (Minting W)
minting_store store = record {
  get_flag = λ key. keeping (store.get_flag key);
  redeem_nonce = λ nonce now. keeping (store.redeem_nonce nonce now);
  issue_nonce = λ nonce expires_at. keeping (store.issue_nonce nonce expires_at);
  take_lock = λ launch_id expires_at now. keeping (store.take_lock launch_id expires_at now);
  read_lock = keeping store.read_lock;
  release_lock = keeping store.release_lock;
  increment_day = λ day cap. keeping (store.increment_day day cap);
  read_day = λ day. keeping (store.read_day day);
  read_sweep = keeping store.read_sweep;
  note_sweep = λ scope dispatched_at ttl. keeping (store.note_sweep scope dispatched_at ttl);
  clear_sweep = keeping store.clear_sweep;
}

upper : String → String
upper String.[] = ""
upper (String.◌∷◌ c s) =
    (elim (find? "abcdefghijklmnopqrstuvwxyz" (String.◌∷◌ c String.[])) [
      | none ↦ String.◌∷◌ c String.[]
      | some i ↦ slice "ABCDEFGHIJKLMNOPQRSTUVWXYZ" i (i + 1)
    ])
    +++ upper s

abbrev method_of : Event → String
method_of event = elim event.method [ none ↦ "GET" | some m ↦ upper m ]

-- `"quota" in params or "quota" in raw`
abbrev asks_quota : Event → Bool
asks_quota event =
    is_some (lookup "quota" event.query_string_parameters)
    || is_some (find? event.raw_query_string "quota")

abbrev pub press_of : Config → ℕ → String → String → Press
press_of config now launch_id nonce = record {
  now = now;
  launch_id = launch_id;
  nonce = nonce;
  ttl_minutes = config.ttl_minutes;
  daily_cap = config.daily_cap;
  configured =
      not (config.app_id == "")
      && (not (config.install_id == "") && not (config.secret_name == ""));
  quota_timezone = some (zone_name (some config.quota_timezone));
}

-- `max(0, n)`
abbrev at_least_zero : ℤ → ℤ
at_least_zero n = if leb_ℤ (pos 0) n then n else pos 0

abbrev detail_fields : Option Fields → Fields
detail_fields none = end
detail_fields (some fields) = fields

module _ {W : Type 0} (zone_info : ZoneInfo) (config : Config) (store : ControlStore W)
    (now : ℕ) where
  abbrev timezone : Option String
  timezone = some (zone_name (some config.quota_timezone))

  quota_read : String → Outcome Error ℤ → Exec W Error Response
  quota_read day (ok used) = do
    seconds ← lift (seconds_until_quota_reset zone_info now timezone)
    pure (
        response 200
          (quota day config.daily_cap used (at_least_zero (pos config.daily_cap -ℤ used)) seconds))
  quota_read day (raised (store_unavailable operation)) =
      pure (response 503 (unavailable operation))
  quota_read day (raised e) = raise e

  day_left : Option Decision → Exec W Error Response
  unfolding quota_read
  day_left (some refusal) = pure (refused refusal)
  day_left none = do
    day ← lift (quota_day zone_info now timezone)
    used ← attempt (store.read_day day)
    quota_read day used

  -- `_quota`
  unfoldable pub answer_quota : Exec W Error Response
  unfolding kill_switch_refusal day_left
  answer_quota = do refusal ← kill_switch_refusal store; day_left refusal

  -- the random texts `token_urlsafe(24)` and `token_hex(8)`
  module _ (nonce hex : String) where
    stored : Outcome Error (Unit {0}) → Exec W Error Response
    stored (ok _) = pure (
        response 200
          (issued nonce ("ss-" +++ hex) config.nonce_ttl config.ttl_minutes config.daily_cap))
    stored (raised (store_unavailable operation)) = pure (response 503 (unavailable operation))
    stored (raised e) = raise e

    nonce_stored : Option Decision → Exec W Error Response
    unfolding stored
    nonce_stored (some refusal) = pure (refused refusal)
    nonce_stored none = do r ← attempt (store.issue_nonce nonce (now + config.nonce_ttl)); stored r

    -- `_issue`
    unfoldable pub issue : Exec W Error Response
    unfolding kill_switch_refusal nonce_stored
    issue = do refusal ← kill_switch_refusal store; nonce_stored refusal

  module _ (http : Http W) where
    fresh_token : Exec W Error Value
    unfolding installation_token
    fresh_token = do
      pem ← reraise exception (http.secret config.secret_name)
      installation_token http config.app_id pem config.install_id now

    minted : Outcome Error Value → Option Value
    minted (ok token) = some token
    minted (raised e) = none

    -- `token()`: one installation token for each press
    token : Exec (Minting W) Error Value
    unfolding fresh_token minted
    token (w, some known) = (ok known, (w, some known))
    token (w, none) = let (r, u) = fresh_token w in (r, (u, minted r))

    unfoldable pub in_flight : Exec (Minting W) Error (List Run)
    unfolding token
    in_flight = do
      t ← token
      keeping (in_flight_runs http t config.owner config.repo config.workflow)

    unfoldable pub dispatch : Value → Exec (Minting W) Error (Unit {0})
    unfolding token
    dispatch launch_id = do
      t ← token
      keeping (
          dispatch_workflow http t config.owner config.repo config.workflow config.ref (
            field "launch_id" launch_id
              (field "ttl_minutes" (str (decimal config.ttl_minutes)) end)))

    unfoldable pub dispatched : Fields → Outcome Error (Unit {0}) → Exec (Minting W) Error Response
    unfolding release_quietly
    dispatched detail (ok _) = pure (
        response 202 (
          launched (get "launch_id" detail) (get "expires_at" detail)
            (get "launches_today" detail)))
    dispatched detail (raised e) = do
      release_quietly (minting_store store)
      pure (response 502 (dispatch_failed (error_name e)))

    unfoldable pub decided : Decision → Exec (Minting W) Error Response
    unfolding dispatch dispatched
    decided d =
        if d.allowed
        then (do
          r ← attempt (dispatch (get "launch_id" (detail_fields d.detail)))
          dispatched (detail_fields d.detail) r)
        else pure (refused d)

    unfoldable pub press_decided : String → String → Exec (Minting W) Error Response
    unfolding decided decide_launch
    press_decided launch_id nonce = do
      d ←
          decide_launch (minting_store store) zone_info in_flight
            (press_of config now launch_id nonce)
      decided d

    -- `_launch`, with what json.loads makes of the body
    body_read : (Value → String) → Option Value → Exec (Minting W) Error Response
    unfolding text_field press_decided
    body_read repr none = pure (response 400 not_json)
    body_read repr (some body) = do
      launch_id ← lift (text_field repr "launch_id" body)
      nonce ← lift (text_field repr "nonce" body)
      press_decided launch_id nonce

    abbrev body_of : Option (Option Value) → Option Value
    body_of none = some (object end)
    body_of (some read) = read

    abbrev on_world : {A : Type 0} → Exec (Minting W) Error A → Exec W Error A
    on_world m w = ((m (w, none)).0, (m (w, none)).1.0)

    unfoldable pub launch : (Value → String) → Event → Exec W Error Response
    unfolding body_read
    launch repr event = on_world (body_read repr (body_of event.body))

    unfoldable pub handler : (Value → String) → String → String → Event → Exec W Error Response
    unfolding upper answer_quota issue launch
    handler repr nonce hex event =
        if method_of event == "GET"
        then (if asks_quota event then answer_quota else issue nonce hex)
        else if method_of event == "POST"
        then launch repr event
        else pure (response 405 bad_method)
