-- ===== src/Killswitch.antt =====
-- infra/self-service/src/killswitch_handler.py: the budget alarm's notification engages the switch.
pub mod Stops
use aws_devops_sdet_demo.Prelude.{
  ℕ, zero, suc, String, ◌+++◌, ◌≡◌, refl, Bool, true, Option, none, some, List, [], ◌∷◌, Exec,
  Outcome, ok, ◌==◌, if◌then◌else◌, is_true, lookup, Item, ap, ◌∙◌, pure, ◌>>=◌, ◌>>◌,
}
use aws_devops_sdet_demo.Control.Interface.{Error}
use aws_devops_sdet_demo.Control.Decide.Trace.{engaged}
use aws_devops_sdet_demo.Control.Laws.{Table}
use aws_devops_sdet_demo.Store.Client.{Client, ClientLaws, Row}
use aws_devops_sdet_demo.Store.Dynamodb.{engage_kill_switch, prefix, plain}

-- The `Sns` part of a record, with "" for what is missing.
pub record Notification : Type 0 where
  pub subject : String
  pub message : String

abbrev subject_of : String → String
subject_of subject = if subject == "" then "budget notification" else subject

reason_of : Notification → String
reason_of n = subject_of n.subject +++ (": " +++ prefix 400 n.message)

-- `" | ".join(reasons)`
reasons : List Notification → String
unfolding reason_of
reasons [] = ""
reasons (n ∷ []) = reason_of n
reasons (n ∷ m ∷ rest) = reason_of n +++ (" | " +++ reasons (m ∷ rest))

abbrev or_none : String → String
or_none reason = if reason == "" then "engaged with no SNS record" else reason

-- The handler returns `{"engaged": True}`.
unfoldable pub handler : {W : Type 0} → Client W → List Notification → ℕ → Exec W Error Bool
unfolding reasons
handler client records now = do
  engage_kill_switch client (or_none (reasons records)) now "budget-alarm"
  pure true
