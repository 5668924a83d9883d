-- ===== src/Results.antt =====
-- app/src/results.py: the api's consumer of the worker's reports. SQS and the database's session are
-- the fields of `Sqs` and `Session`; logging and waiting change nothing that the consumer reads.
pub mod Projection
use aws_devops_sdet_demo.Prelude.{
  ℕ, zero, suc, String, Bool, true, false, Option, none, some, List, [], ◌∷◌, Value, Outcome, ok,
  raised, Exec, pure, raise, attempt, ◌>>=◌, ◌>>◌, ◌==◌, if◌then◌else◌,
}
use aws_devops_sdet_demo.Messages.{Poison, Report, parse_item_processed}

pub data Error : Type 0 where
  integrity_error : Error
  operational_error : Error
  -- any other exception, by the name of its type
  exception : String → Error

pub record Message : Type 0 where
  pub body : String
  pub receipt_handle : Option String

pub record Sqs (W : Type 0) : Type 0 where
  pub receive_message : String → ℕ → Exec W Error (List Message)
  pub delete_message : String → String → Exec W Error (Unit {0})

-- The session of one `with`: RECORD_SQL with its row count, and what ends the transaction.
pub record Session (W : Type 0) : Type 0 where
  pub execute : Report → Exec W Error ℕ
  pub commit : Exec W Error (Unit {0})
  pub rollback : Exec W Error (Unit {0})
  -- leaving the `with`
  pub close : Exec W Error (Unit {0})

pub data Recorded : Type 0 where
  recorded already gone : Recorded

module _ {W : Type 0} (session : Session W) where
  abbrev pub written : Report → Exec W Error ℕ
  written report = do rowcount ← session.execute report; session.commit; pure rowcount

  abbrev pub outcome_of : ℕ → Recorded
  outcome_of (suc zero) = recorded
  outcome_of _ = already

  unfoldable pub settled : Outcome Error ℕ → Exec W Error Recorded
  settled (ok rowcount) = pure (outcome_of rowcount)
  settled (raised integrity_error) = do session.rollback; pure gone
  settled (raised e) = raise e

  -- `with`: the session is closed on the way out, and what was raised goes on
  unfoldable pub closing : {A : Type 0} → Outcome Error A → Exec W Error A
  closing (ok a) = do session.close; pure a
  closing (raised e) = do session.close; raise e

  unfoldable pub record_report : Report → Exec W Error Recorded
  unfolding settled closing
  record_report report = do
    result ← attempt (do rowcount ← attempt (written report); settled rowcount)
    closing result

  module _ (sqs : Sqs W) (results_queue_url : String) (loads : String → Option Value) where
    delete_with : Option String → Exec W Error (Unit {0})
    delete_with none = raise (exception "KeyError")
    delete_with (some handle) = sqs.delete_message results_queue_url handle

    -- OperationalError leaves the message for the next delivery
    unfoldable pub projected : Option String → Outcome Error Recorded → Exec W Error (Unit {0})
    unfolding delete_with
    projected handle (raised operational_error) = pure tt
    projected handle (raised e) = raise e
    projected handle (ok outcome) = delete_with handle

    unfoldable pub reported : Option String → Outcome Poison Report → Exec W Error (Unit {0})
    unfolding record_report projected
    reported handle (raised p) = pure tt
    reported handle (ok report) = do
      outcome ← attempt (record_report report)
      projected handle outcome

    unfoldable pub handle : Message → Exec W Error (Unit {0})
    unfolding reported
    handle message = reported message.receipt_handle (parse_item_processed loads message.body)

    module _ (is_set : W → Bool) where
      handle_batch : List Message → Exec W Error (Unit {0})
      unfolding handle
      handle_batch [] w = (ok tt, w)
      handle_batch (message ∷ rest) w =
          if is_set w then (ok tt, w) else (handle message >> handle_batch rest) w

      received : Outcome Error (List Message) → Exec W Error (Unit {0})
      unfolding handle_batch
      received (raised e) = pure tt
      received (ok messages) = handle_batch messages

      -- `Consumer.run`, for at most as many passes as `fuel`: false where these are spent
      unfoldable pub run : ℕ → Exec W Error Bool
      unfolding received
      run zero w = (ok false, w)
      run (suc fuel) w =
          if is_set w
          then (ok true, w)
          else (do
            messages ← attempt (sqs.receive_message results_queue_url 10)
            received messages
            run fuel)
              w
