-- ===== src/Tests/Sweeps.antt =====
-- The watchdog's decisions and one of its runs.
use aws_devops_sdet_demo.Prelude.{
  ◌<◌, ◌≤◌, ◌-◌, ℤ, pos, String, ◌≡◌, ◌≢◌, refl, true, Option, none, some, [], ◌∷◌, Item, ltb,
  if◌then◌else◌, Outcome, ok, raised, arith, ◌-ℤ◌,
}
use aws_devops_sdet_demo.Control.Interface.{Error}
use aws_devops_sdet_demo.Control.Laws.{lock_item}
use aws_devops_sdet_demo.Github.{Http}
use aws_devops_sdet_demo.Store.Dynamodb.{dynamodb_control_store, read_lock, read_sweep, note_sweep}
use aws_devops_sdet_demo.Store.Plain.{items}
use aws_devops_sdet_demo.Store.Records.{dynamodb-RecordLaws}
use aws_devops_sdet_demo.Sweep.{
  ecs, Resource, Sweep, dispatch, wait, blunt, decide_sweep, scope_of, deadline_passed,
}
use aws_devops_sdet_demo.Sweep.Safety.{
  is_overdue, noted, AskedBefore, blunt_only_after_asking, dispatch_followed_up,
}
use aws_devops_sdet_demo.Watchdog
use aws_devops_sdet_demo.Watchdog.Effects.{
  All, IsLaunched, Noted, observe-IsLaunched, handler_notes_dispatch,
}
use aws_devops_sdet_demo.Tests.Memory.{Memory, memory, rows, memory-ClientLaws, empty}

abbrev service : Resource
service = record {
  kind = ecs;
  id = "svc";
  cluster = "demo";
  tags = ("Launch", "d-1") ∷ ("ExpiresAt", "then") ∷ [];
}

-- Every deadline is at one second.
abbrev one_second : String → Option ℤ
one_second text = some (pos 1000000)

abbrev lock : Option Item
lock = some (lock_item "d-1" 100 50)

blunt_reached :
    (decide_sweep one_second (service ∷ []) lock (some (noted "d-1" 200)) 2000 900).action ≡ blunt
unfolding decide_sweep deadline_passed scope_of ◌-ℤ◌
blunt_reached = refl

blunt_only_after_asking_example :
    ((service ∷ []) ≢ [])
    × (is_overdue one_second (service ∷ []) lock 2000 ≡ true)
    × AskedBefore (service ∷ []) (some (noted "d-1" 200)) 2000 900
    × ((decide_sweep one_second (service ∷ []) lock (some (noted "d-1" 200)) 2000 900).release_lock
        ≡ true)
    × ((decide_sweep one_second (service ∷ []) lock (some (noted "d-1" 200)) 2000 900).clear_record
        ≡ true)
blunt_only_after_asking_example =
    blunt_only_after_asking one_second (service ∷ []) lock (some (noted "d-1" 200)) 2000 900
      blunt_reached

dispatch_reached : (decide_sweep one_second (service ∷ []) lock none 200 900).action ≡ dispatch
unfolding decide_sweep deadline_passed
dispatch_reached = refl

asked_positive : 0 < 200
asked_positive = ground arith

asked_before : 200 ≤ 2000
asked_before = ground arith

dispatch_followed_up_example :
    (decide_sweep one_second
      (service ∷ [])
      lock
      (some (noted (scope_of (service ∷ [])) 200))
      2000
      900).action
    ≡ (if ltb (2000 - 200) 900 then wait else blunt)
dispatch_followed_up_example =
    dispatch_followed_up one_second (service ∷ []) lock none 200 2000 900 asked_positive
      asked_before dispatch_reached

abbrev aws : Watchdog.Aws Memory
aws = record {
  list_clusters = λ w. (ok ("demo" ∷ []), w);
  list_services = λ cluster w. (ok ("svc" ∷ []), w);
  describe_services = λ cluster arns w. (
    ok (record { service_arn = "svc"; tags = ("Launch", "d-1") ∷ ("ExpiresAt", "then") ∷ [] } ∷ []),
    w,
  );
  describe_load_balancers = λ w. (ok [], w);
  describe_tags = λ arn w. (ok [], w);
  describe_db_instances = λ w. (ok [], w);
  update_service = λ cluster service count w. (ok tt, w);
  delete_service = λ cluster service w. (ok tt, w);
  delete_load_balancer = λ arn w. (ok tt, w);
  delete_db_instance = λ id w. (ok tt, w);
}

abbrev deaf : Http Memory
deaf = record {
  urlopen = λ method url token body w. (raised "timeout", w);
  jwt_encode = λ iat exp app key. ok "jwt";
  secret = λ name w. (ok "pem", w);
}

abbrev config : Watchdog.Config
config = record {
  owner = "o";
  repo = "r";
  app_id = "1";
  install_id = "2";
  secret_name = "s";
  destroy_workflow = "destroy.yml";
  ref = "main";
  environment = "demo";
  prefix = "demo";
  grace = 900;
}

observed : (Watchdog.observe aws "demo" empty).0 ≡ ok (service ∷ [])
unfolding Watchdog.observe
observed = refl

observe-IsLaunched_example : All IsLaunched (service ∷ [])
observe-IsLaunched_example = observe-IsLaunched aws "demo" empty (service ∷ []) observed

abbrev decided : Sweep
decided = decide_sweep one_second (service ∷ []) none none 2000 900

abbrev ran : Outcome Error (Sweep × Option Watchdog.Deleted) × Memory
ran = Watchdog.handler aws deaf config (dynamodb_control_store memory) one_second 2000 empty

ran_dispatched : ran.0 ≡ ok (decided, none)
unfolding Watchdog.handler read_lock read_sweep deadline_passed note_sweep
ran_dispatched = refl

decided_dispatch : decided.action ≡ dispatch
unfolding decide_sweep deadline_passed
decided_dispatch = refl

handler_notes_dispatch_example :
    Noted aws deaf config
      (dynamodb_control_store memory)
      (items rows)
      (dynamodb-RecordLaws memory rows memory-ClientLaws)
      2000
      decided
      none
      ran.1
handler_notes_dispatch_example =
    handler_notes_dispatch aws deaf config (dynamodb_control_store memory) (items rows)
      (dynamodb-RecordLaws memory rows memory-ClientLaws) one_second 2000 empty decided none
      ran_dispatched decided_dispatch
