-- ===== src/Worker/Redelivery.antt =====
-- On worker/consumer/main.py: a message of an item that has its receipt.
use aws_devops_sdet_demo.Prelude.{
  ℕ, String, ◌≡◌, sym, ap, ◌∙◌, ◌⊎◌, inl, inr, Bool, Option, none, some, ◌∷◌, Value, Outcome, ok,
  raised, not, ◌||◌, Outcome-cases, ok-injective, Bool-cases, subst,
}
use aws_devops_sdet_demo.Messages.{Poison, Created, parse_item_created, item_processed_message}
use aws_devops_sdet_demo.Worker.{
  Error, database_error, exception, Message, Sqs, Receipts, Receipt, Config, Worker, dsn, db,
  inserted, read_back, receipt, reported, receipted, parsed, handle, handle_with,
}
use aws_devops_sdet_demo.Worker.Delivery.{Seen, DeliveryLaws, Reported, handle_reports}

some-receipt : {a b : Receipt} → some a ≡ some b → a ≡ b
some-receipt h = cc

module _ {W : Type 0} (sqs : Sqs W) (database : Receipts W) (config : Config)
    (loads : String → Option Value) (dumps : Value → String) (seen : Seen W)
    (laws : DeliveryLaws sqs database seen) (m : ℕ) (first : Receipt) where
  -- the first receipt of the item `m`
  abbrev pub Written : Worker × W → Type 0
  Written x = seen.receipts x.1 m ≡ some first

  of_view :
      (u v : W)
      → seen.receipts v ≡ seen.receipts u
      → seen.receipts u m ≡ some first
      → seen.receipts v m ≡ some first
  of_view u v e h = ap (λ f. f m) e ∙ h

  db-Written : (x : Worker × W) → Written x → Written (db sqs database config loads dumps x).1
  unfolding db
  db-Written x h = elim (Bool-cases (not x.0.connected || database.closed x.1)) [
    | inr on ↦ rw (on, db) h
    | inl off ↦
        let kept = of_view x.1 _ ((laws.connect_receipts (dsn config.database_url)).at x.1) h in
        elim (Outcome-cases (database.connect (dsn config.database_url) x.1).0) [
          | inl (done, c) ↦ rw (off, db) (rw c kept)
          | inr (e, c) ↦ rw (off, db) (rw c kept)
        ]
  ]

  inserted-Written :
      (n : ℕ) (row : Option Receipt) (x : Worker × W)
      → Written x
      → Written (inserted sqs database config loads dumps n row x).1
  unfolding inserted read_back
  inserted-Written n (some row) x h = h
  inserted-Written n none x h =
      let kept = of_view x.1 _ ((laws.read_receipts n).at x.1) h in
      elim (Outcome-cases (database.read n x.1).0) [
        | inr (e, c) ↦ rw (c, inserted) kept
        | inl (none, c) ↦ rw (c, inserted, read_back) kept
        | inl (some row, c) ↦ rw (c, inserted, read_back) kept
      ]

  receipt-Written :
      (n : ℕ) (request_id : String) (x : Worker × W)
      → Written x
      → Written (receipt sqs database config loads dumps n request_id x).1
  unfolding receipt
  receipt-Written n request_id x h =
      let u = (db sqs database config loads dumps x).1 in
      let hu = db-Written x h in
      elim (Outcome-cases (db sqs database config loads dumps x).0) [
        | inr (e, c) ↦ rw (c, receipt) hu
        | inl (done, c) ↦
            let hv = laws.insert_keeps n config.worker_id request_id u.1 m first hu in
            let v = (database.insert n config.worker_id request_id u.1).1 in
            elim (Outcome-cases (database.insert n config.worker_id request_id u.1).0) [
              | inr (e, i) ↦ rw (c, i, receipt) hv
              | inl (row, i) ↦ rw (c, i, receipt) (inserted-Written n row (u.0, v) hv)
            ]
      ]

  reported-Written :
      (handle : String) (b : Bool) (o : Outcome Error (Unit {0})) (x : Worker × W)
      → Written x
      → Written (reported sqs database config loads dumps handle b o x).1
  unfolding reported
  reported-Written handle b (raised e) x h = h
  reported-Written handle b (ok done) x h =
      of_view x.1 _ ((laws.delete_receipts config.queue_url handle).at x.1) h

  receipted-Written :
      (handle : String) (c : Created) (o : Outcome Error (Receipt × Bool)) (x : Worker × W)
      → Written x
      → Written (receipted sqs database config loads dumps handle c o x).1
  unfolding receipted
  receipted-Written handle c (raised database_error) x h = h
  receipted-Written handle c (raised (exception name)) x h = h
  receipted-Written handle c (ok (row, b)) x h =
      let body = item_processed_message dumps c.0 row.0 row.1 c.1 in
      reported-Written handle b _ (x.0, (sqs.send_message config.results_queue_url body x.1).1)
        (of_view x.1 _ ((laws.send_receipts config.results_queue_url body).at x.1) h)

  parsed-Written :
      (handle : String) (o : Outcome Poison Created) (x : Worker × W)
      → Written x
      → Written (parsed sqs database config loads dumps handle o x).1
  unfolding parsed
  parsed-Written handle (raised p) x h = h
  parsed-Written handle (ok (n, request_id)) x h =
      receipted-Written handle (n, request_id)
        (receipt sqs database config loads dumps n request_id x).0
        (receipt sqs database config loads dumps n request_id x).1
        (receipt-Written n request_id x h)

  handle_with-Written :
      (body : String) (r : Option String) (x : Worker × W)
      → Written x
      → Written (handle_with sqs database config loads dumps body r x).1
  unfolding handle_with
  handle_with-Written body none x h = h
  handle_with-Written body (some handle) x h =
      parsed-Written handle (parse_item_created loads body) x h

  handle-Written :
      (message : Message) (x : Worker × W)
      → Written x
      → Written (handle sqs database config loads dumps message x).1
  unfolding handle
  handle-Written message x h = handle_with-Written message.body message.receipt_handle x h

  -- the report of the first receipt
  abbrev pub first_report : String → String
  first_report request_id = item_processed_message dumps m first.0 first.1 request_id

  alike :
      (message : Message) (x : Worker × W) (request_id : String)
      → parse_item_created loads message.body ≡ ok (m, request_id)
      → Written x
      → Reported sqs database config loads dumps seen laws message.body x
          (handle sqs database config loads dumps message x).1
      → let y = (handle sqs database config loads dumps message x).1 in
        (seen.deleted y.1 ≡ seen.deleted x.1)
        ⊎ (seen.sent y.1 ≡ (config.results_queue_url, first_report request_id) ∷ seen.sent x.1)
  alike message x request_id p h (inl left) = inl left
  alike message x request_id p h (inr (n, other, row, q, kept, went)) =
      let same = ok-injective (sym q ∙ p) in
      let n_same = ap (λ c. c.0) same in
      let there =
        subst
          (λ k. seen.receipts (handle sqs database config loads dumps message x).1.1 k ≡ some row)
          n_same kept in
      let row_same = some-receipt (sym there ∙ handle-Written message x h) in
      inr (went ∙ ap (λ b. (config.results_queue_url, b) ∷ seen.sent x.1) cc)

  -- Where an item has a receipt, handling a message that names the item keeps that receipt, and it
  -- deletes nothing or sends just the report of that receipt.
  pub redelivery_reports_alike :
      (message : Message) (x : Worker × W) (request_id : String)
      → parse_item_created loads message.body ≡ ok (m, request_id)
      → Written x
      → let y = (handle sqs database config loads dumps message x).1 in
        Written y
        × ((seen.deleted y.1 ≡ seen.deleted x.1)
            ⊎ (seen.sent y.1 ≡ (config.results_queue_url, first_report request_id) ∷ seen.sent x.1))
  redelivery_reports_alike message x request_id p h = (
    handle-Written message x h,
    alike message x request_id p h
        (handle_reports sqs database config loads dumps seen laws message x),
  )
