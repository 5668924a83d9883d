-- ===== src/Tests/Launches.antt =====
-- Presses of the button, the alarm and the watchdog, with the control store in memory.
use aws_devops_sdet_demo.Prelude.{if◌then◌else◌, ◌==◌, ◌+ℤ◌}
use aws_devops_sdet_demo.Github.{Http, Reply, in_flight_runs, dispatch_workflow}
use aws_devops_sdet_demo.Github.Inflight.{in_flight_runs_lem, running}
use aws_devops_sdet_demo.Killswitch.{Notification}
use aws_devops_sdet_demo.Killswitch
use aws_devops_sdet_demo.Killswitch.Stops.{alarm_stops_launches}
use aws_devops_sdet_demo.Github.Effects.{HttpLaws}
use aws_devops_sdet_demo.Launch.{
  Config, Response, Body, Minting, press_decided, in_flight, launched, dispatch_failed,
}
use aws_devops_sdet_demo.Launch.Effects.{Passes, launched-Passes, failed_dispatch_releases}
use Prim.Native.Nat.{◌/◌, ◌*◌}
use aws_devops_sdet_demo.Prelude.{
  ℕ, pos, String, ◌≡◌, ◌⊎◌, refl, Bool, true, Option, none, some, List, [], ◌∷◌, Value, str, int,
  object, array, field, end, nil, cons, null, Exec, Outcome, ok, raised, Items,
}
use aws_devops_sdet_demo.Control.Interface.{Error}
use aws_devops_sdet_demo.Control.Quota.{Zone, ZoneInfo}
use aws_devops_sdet_demo.Control.Laws.{lock_key, count_key}
use aws_devops_sdet_demo.Control.Decide.{Press, Run, decide_launch}
use aws_devops_sdet_demo.Control.Decide.Trace.{Allows}
use aws_devops_sdet_demo.Control.Safety.{Passed, before_asking, decide_launch_passes}
use aws_devops_sdet_demo.Store.Dynamodb.{
  dynamodb_control_store, get_flag, redeem_nonce, take_lock, increment_day, engage_kill_switch,
}
use aws_devops_sdet_demo.Store.Plain.{items}
use aws_devops_sdet_demo.Store.Refinement.{dynamodb-StoreLaws}
use aws_devops_sdet_demo.Tests.Memory.{Memory, memory, rows, memory-ClientLaws, empty, with_nonce}

abbrev utc : Zone
utc = record {
  local_day = λ t. t / 86400;
  day_text = λ d. "2026-11-25";
  midnight = λ d. d * 86400;
  tzname = λ t. "UTC";
  clock_text = λ t. "2026-11-26 00:00";
}

abbrev zones : ZoneInfo
zones name = ok utc

abbrev idle : Exec Memory Error (List Run)
idle w = (ok [], w)

abbrev press : Press
press = record {
  now = 1000;
  launch_id = "d-0123456789abcdef";
  nonce = "n1";
  ttl_minutes = 60;
  daily_cap = 3;
  configured = true;
  quota_timezone = none;
}

abbrev launched_world : Memory
launched_world = (decide_launch (dynamodb_control_store memory) zones idle press with_nonce).1

idle_asks : (w : Memory) (j : String) → items rows (idle w).1 j ≡ items rows w j
idle_asks w j = refl

press_allowed :
    Allows
      (dynamodb_control_store memory)
      zones
      idle
      press
      (decide_launch (dynamodb_control_store memory) zones idle press with_nonce)
      launched_world
unfolding decide_launch get_flag redeem_nonce take_lock increment_day
press_allowed = (refl, refl)

decide_launch_passes_example :
    Passed zones press (items rows with_nonce) (items rows launched_world)
    × ((idle (
          before_asking
            (dynamodb_control_store memory)
            (items rows)
            (dynamodb-StoreLaws memory rows memory-ClientLaws)
            zones
            idle
            idle_asks
            press
            with_nonce)).0
        ≡ ok [])
decide_launch_passes_example =
    decide_launch_passes (dynamodb_control_store memory) (items rows)
      (dynamodb-StoreLaws memory rows memory-ClientLaws) zones idle idle_asks press with_nonce
      launched_world press_allowed

-- HTTP that answers by method: the token and the dispatch are posted; the runs are got.
abbrev runs_reply : Value
runs_reply = object (field "workflow_runs" (array nil) end)

abbrev answer : (dispatched : ℕ) → String → Option Value → Reply
answer dispatched method (some body) = record { status = dispatched; body = some (object end) }
answer dispatched method none =
    if method == "POST"
    then record { status = 201; body = some (object (field "token" (str "t") end)) }
    else record { status = 200; body = some runs_reply }

abbrev http : ℕ → Http Memory
http posts = record {
  urlopen = λ method url token body w. (ok (answer posts method body), w);
  jwt_encode = λ iat exp app key. ok "jwt";
  secret = λ name w. (ok "pem", w);
}

http-HttpLaws : (posts : ℕ) → HttpLaws (http posts) (items rows)
http-HttpLaws posts = record {
  urlopen_keeps = λ method url token body. record { at = λ w. refl };
  secret_keeps = λ name. record { at = λ w. refl };
}

abbrev config : Config
config = record {
  owner = "o";
  repo = "r";
  app_id = "1";
  install_id = "2";
  secret_name = "s";
  workflow = "demo.yml";
  ref = "main";
  ttl_minutes = 60;
  daily_cap = 3;
  quota_timezone = "";
  nonce_ttl = 300;
}

abbrev decision_of : ℕ → Outcome Error Response × Minting Memory
decision_of posts =
    press_decided zones config (dynamodb_control_store memory) 1000 (http posts)
      "d-0123456789abcdef" "n1" (with_nonce, none)

abbrev reply : ℕ → Body → Response
reply status body = record { status_code = status; body = body }

reply_launched :
    (decision_of 204).0
    ≡ ok (reply 202 (launched (str "d-0123456789abcdef") (int (pos 4600)) (int (pos 1))))
unfolding press_decided get_flag redeem_nonce take_lock increment_day in_flight in_flight_runs
    dispatch_workflow ◌+ℤ◌
reply_launched = refl

reply_failed : (decision_of 202).0 ≡ ok (reply 502 (dispatch_failed "GitHubError"))
unfolding press_decided get_flag redeem_nonce take_lock increment_day in_flight in_flight_runs
    dispatch_workflow ◌+ℤ◌
reply_failed = refl

launched-Passes_example :
    Passes
      (dynamodb_control_store memory)
      (items rows)
      (dynamodb-StoreLaws memory rows memory-ClientLaws)
      (http 204)
      (http-HttpLaws 204)
      zones
      config
      1000
      "d-0123456789abcdef"
      "n1"
      (with_nonce, none)
      (decision_of 204).1
launched-Passes_example =
    launched-Passes (dynamodb_control_store memory) (items rows)
      (dynamodb-StoreLaws memory rows memory-ClientLaws) (http 204) (http-HttpLaws 204) zones config
      1000 "d-0123456789abcdef" "n1" (with_nonce, none)
      (reply 202 (launched (str "d-0123456789abcdef") (int (pos 4600)) (int (pos 1))))
      (str "d-0123456789abcdef") (int (pos 4600)) (int (pos 1)) reply_launched refl

failed_dispatch_releases_example :
    (u : Minting Memory) × Passes
      (dynamodb_control_store memory)
      (items rows)
      (dynamodb-StoreLaws memory rows memory-ClientLaws)
      (http 202)
      (http-HttpLaws 202)
      zones
      config
      1000
      "d-0123456789abcdef"
      "n1"
      (with_nonce, none)
      u
    × ((day : String)
        → items rows (decision_of 202).1.0 (count_key day) ≡ items rows u.0 (count_key day))
    × ((items rows (decision_of 202).1.0 lock_key ≡ none)
        ⊎ ((e : Error) × (((dynamodb_control_store memory).release_lock u.0).0 ≡ raised e)))
failed_dispatch_releases_example =
    failed_dispatch_releases (dynamodb_control_store memory) (items rows)
      (dynamodb-StoreLaws memory rows memory-ClientLaws) (http 202) (http-HttpLaws 202) zones config
      1000 "d-0123456789abcdef" "n1" (with_nonce, none) (reply 502 (dispatch_failed "GitHubError"))
      "GitHubError" reply_failed refl

abbrev alarm : List Notification
alarm = record { subject = "over"; message = "5 USD" } ∷ []

abbrev alarmed : Outcome Error Bool × Memory
alarmed = Killswitch.handler memory alarm 900 with_nonce

alarm_answered : alarmed.0 ≡ ok true
unfolding Killswitch.handler engage_kill_switch
alarm_answered = refl

alarm_stops_launches_example :
    ¬ Allows
      (dynamodb_control_store memory)
      zones
      idle
      press
      (decide_launch (dynamodb_control_store memory) zones idle press alarmed.1)
      launched_world
alarm_stops_launches_example =
    alarm_stops_launches memory rows memory-ClientLaws zones idle idle_asks alarm 900 with_nonce
      alarmed.1 launched_world press alarm_answered refl

abbrev two_runs : Items
two_runs =
    cons (object (field "status" (str "completed") end))
      (cons (object (field "status" (str "queued") (field "run_number" (int (pos 7)) end))) nil)

abbrev queued : List Run
queued =
    field "id" null (
      field "run_number" (int (pos 7))
        (field "head_branch" null (field "status" (str "queued") (field "html_url" null end))))
    ∷ []

abbrev busy : Http Memory
busy = record {
  urlopen = λ method url token body w. (
    ok (record { status = 200; body = some (object (field "workflow_runs" (array two_runs) end)) }),
    w,
  );
  jwt_encode = λ iat exp app key. ok "jwt";
  secret = λ name w. (ok "pem", w);
}

two_runs_read : (in_flight_runs busy (str "t") "o" "r" "demo.yml" empty).0 ≡ ok (queued)
unfolding in_flight_runs
two_runs_read = refl

abbrev two_reply : Reply
two_reply = record {
  status = 200;
  body = some (object (field "workflow_runs" (array two_runs) end));
}

in_flight_runs_lem_example : (two_reply.status ≡ 200) × (queued ≡ running two_runs)
in_flight_runs_lem_example =
    in_flight_runs_lem busy (str "t") "o" "r" "demo.yml" empty queued two_reply
      (field "workflow_runs" (array two_runs) end) two_runs refl refl refl two_runs_read
