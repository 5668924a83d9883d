-- ===== src/Killswitch/Stops.antt =====
-- On killswitch_handler.py with control.py: the presses after the alarm.
use aws_devops_sdet_demo.Prelude.{
  ℕ, String, ◌≡◌, sym, ap, ◌∙◌, inl, inr, true, Option, List, Exec, ok, Outcome-cases, false≢true,
}
use aws_devops_sdet_demo.Control.Interface.{Error}
use aws_devops_sdet_demo.Control.Quota.{ZoneInfo}
use aws_devops_sdet_demo.Control.Decide.{Press, Run, decide_launch}
use aws_devops_sdet_demo.Control.Decide.Trace.{Allows, engaged}
use aws_devops_sdet_demo.Control.Safety.{decide_launch_passes}
use aws_devops_sdet_demo.Store.Client.{Client, ClientLaws, Row}
use aws_devops_sdet_demo.Store.Dynamodb.{dynamodb_control_store, engage_kill_switch}
use aws_devops_sdet_demo.Store.Plain.{items}
use aws_devops_sdet_demo.Store.Records.{engage_kill_switch-engages}
use aws_devops_sdet_demo.Store.Refinement.{dynamodb-StoreLaws}
use aws_devops_sdet_demo.Killswitch.{Notification, handler, reasons, or_none}

module _ {W : Type 0} (client : Client W) (rows : W → String → Option Row)
    (laws : ClientLaws client rows) (zone_info : ZoneInfo) (in_flight : Exec W Error (List Run))
    (asks : (w : W) (j : String) → items rows (in_flight w).1 j ≡ items rows w j) where
  handler-engages :
      (records : List Notification) (now : ℕ) (w : W)
      → (handler client records now w).0 ≡ ok true
      → engaged (items rows (handler client records now w).1 "killswitch") ≡ true
  unfolding handler
  handler-engages records now w h =
      elim (Outcome-cases
        (engage_kill_switch client (or_none (reasons records)) now "budget-alarm" w).0) [
          | inl (tt, e) ↦ rw (e, handler) (engage_kill_switch-engages client rows laws _ now _ w e)
          | inr (x, e) ↦ cc (rw (e, handler) at h)
        ]

  -- Once the alarm's handler has returned, no press is allowed in a world where the item of the
  -- switch is as the handler left it, whatever the press and whatever the client answers within
  -- its laws.
  pub alarm_stops_launches :
      (records : List Notification) (now : ℕ) (w u v : W) (p : Press)
      → (handler client records now w).0 ≡ ok true
      → items rows u "killswitch" ≡ items rows (handler client records now w).1 "killswitch"
      → ¬ Allows
          (dynamodb_control_store client)
          zone_info
          in_flight
          p
          (decide_launch (dynamodb_control_store client) zone_info in_flight p u)
          v
  alarm_stops_launches records now w u v p h same a =
      let (passed, _) =
        decide_launch_passes (dynamodb_control_store client) (items rows)
          (dynamodb-StoreLaws client rows laws) zone_info in_flight asks p u v a in
      false≢true (sym passed.off ∙ ap engaged same ∙ handler-engages records now w h)
