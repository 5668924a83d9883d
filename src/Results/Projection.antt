-- ===== src/Results/Projection.antt =====
-- On app/src/results.py: which messages the consumer deletes.
use aws_devops_sdet_demo.Prelude.{
  ℕ, String, ◌≡◌, refl, ◌⊎◌, inl, inr, Option, List, Value, Outcome, ok, raised, Outcome-cases,
  Stable, stable_rules, Stable-bind, Stable-pure, Stable-attempt, attempt, ◌>>=◌,
}
use aws_devops_sdet_demo.Messages.{Poison, Report, parse_item_processed}
use aws_devops_sdet_demo.Results.{
  Error, integrity_error, operational_error, exception, Message, Sqs, Session, Recorded, written,
  settled, closing, record_report, projected, reported, handle,
}

-- The session's calls do not touch the queue: `deleted` lists what has been deleted from each.
pub record ProjectionLaws {W : Type 0} (session : Session W) (deleted : W → List (String × String))
    : Type 0 where
  pub execute_keeps : (report : Report) → Stable deleted (session.execute report)
  pub commit_keeps : Stable deleted session.commit
  pub rollback_keeps : Stable deleted session.rollback
  pub close_keeps : Stable deleted session.close

module _ {W : Type 0} (session : Session W) (sqs : Sqs W) (results_queue_url : String)
    (loads : String → Option Value) (deleted : W → List (String × String))
    (laws : ProjectionLaws session deleted) where
  settled-Stable : (r : Outcome Error ℕ) → Stable deleted (settled session r)
  unfolding settled
  settled-Stable (ok n) = search stable_rules
  settled-Stable (raised integrity_error) = search (stable_rules, laws.rollback_keeps)
  settled-Stable (raised operational_error) = search stable_rules
  settled-Stable (raised (exception name)) = search stable_rules

  closing-Stable : {A : Type 0} (r : Outcome Error A) → Stable deleted (closing session r)
  unfolding closing
  closing-Stable (ok n) = search (stable_rules, laws.close_keeps)
  closing-Stable (raised e) = search (stable_rules, laws.close_keeps)

  written-Stable : (report : Report) → Stable deleted (written session report)
  written-Stable report =
      Stable-bind (session.execute report) _ (laws.execute_keeps report)
        λ n. Stable-bind session.commit _ laws.commit_keeps λ _. Stable-pure n

  record_report-Stable : (report : Report) → Stable deleted (record_report session report)
  unfolding record_report
  record_report-Stable report =
      let m = attempt {F = Error} (written session report) in
      let body = m >>= settled session in
      Stable-bind (attempt body) (closing session)
        (Stable-attempt body (
          Stable-bind m (settled session)
            (Stable-attempt (written session report) (written-Stable report)) settled-Stable))
        closing-Stable

  -- Handling a report deletes nothing, or the report was read and its recording returned.
  abbrev pub Deleted : Message → W → Type 0
  Deleted message w =
      (report : Report) × (outcome : Recorded) × (parse_item_processed loads message.body
        ≡ ok report)
      × ((record_report session report w).0 ≡ ok outcome)

  reported-deletes :
      (message : Message) (h : Option String) (w : W) (r : Outcome Poison Report)
      → parse_item_processed loads message.body ≡ r
      → (deleted (reported session sqs results_queue_url loads h r w).1 ≡ deleted w)
        ⊎ Deleted message w
  unfolding reported
  reported-deletes message h w (raised p) e = inl refl
  reported-deletes message h w (ok report) e =
      elim (Outcome-cases (record_report session report w).0) [
        | inl (outcome, o) ↦ inr (report, outcome, e, o)
        | inr (operational_error, o) ↦
            inl (rw (o, reported, projected) ((record_report-Stable report).at w))
        | inr (integrity_error, o) ↦
            inl (rw (o, reported, projected) ((record_report-Stable report).at w))
        | inr (exception name, o) ↦
            inl (rw (o, reported, projected) ((record_report-Stable report).at w))
      ]

  -- Handling a message deletes nothing, or the message is a report that the parser accepts and
  -- recording that report returned: recorded, already recorded, or about an item that is gone.
  pub handle_deletes :
      (message : Message) (w : W)
      → (deleted (handle session sqs results_queue_url loads message w).1 ≡ deleted w)
        ⊎ Deleted message w
  unfolding handle
  handle_deletes message w =
      reported-deletes message message.receipt_handle w (parse_item_processed loads message.body)
        refl
