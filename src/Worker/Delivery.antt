-- ===== src/Worker/Delivery.antt =====
-- What a message leaves: its report, its receipt, and whether it is deleted.
use aws_devops_sdet_demo.Prelude.{
  ℕ, String, ◌≡◌, refl, ap, ◌∙◌, ◌⊎◌, inl, inr, Bool, true, false, Option, none, some, List, ◌∷◌,
  Value, Outcome, ok, raised, Exec, Outcome-cases, ok-injective, Stable, stable_rules, Stable-bind,
  not, ◌||◌, Ensures, Ensures-bind,
}
use aws_devops_sdet_demo.Messages.{Poison, Created, parse_item_created, item_processed_message}
use aws_devops_sdet_demo.Worker.{
  Error, remote, database_error, exception, Message, Sqs, Receipts, Receipt, Config, Worker, dsn,
  db, inserted, read_back, receipt, reported, receipted, parsed, handle, handle_with,
}

-- What has been sent and deleted, with the queue of each, and the receipts.
pub record Seen {ℓ} (W : Type ℓ) : Type ℓ where
  pub sent : W → List (String × String)
  pub deleted : W → List (String × String)
  pub receipts : W → ℕ → Option Receipt

-- The documented behaviour of SQS and of the two statements. A call that fails may have been done.
pub record DeliveryLaws {W : Type 0} (sqs : Sqs W) (database : Receipts W) (seen : Seen W)
    : Type 0 where
  pub send_done :
      (queue body : String) (w : W)
      → (sqs.send_message queue body w).0 ≡ ok tt
      → seen.sent (sqs.send_message queue body w).1 ≡ (queue, body) ∷ seen.sent w
  pub send_deleted : (queue body : String) → Stable seen.deleted (sqs.send_message queue body)
  pub send_receipts : (queue body : String) → Stable seen.receipts (sqs.send_message queue body)
  pub delete_sent : (queue handle : String) → Stable seen.sent (sqs.delete_message queue handle)
  pub delete_receipts :
      (queue handle : String) → Stable seen.receipts (sqs.delete_message queue handle)
  pub connect_sent : (url : String) → Stable seen.sent (database.connect url)
  pub connect_deleted : (url : String) → Stable seen.deleted (database.connect url)
  pub connect_receipts : (url : String) → Stable seen.receipts (database.connect url)
  pub insert_sent :
      (n : ℕ) (by request_id : String) → Stable seen.sent (database.insert n by request_id)
  pub insert_deleted :
      (n : ℕ) (by request_id : String) → Stable seen.deleted (database.insert n by request_id)
  pub insert_new :
      (n : ℕ) (by request_id : String) (w : W) (row : Receipt)
      → (database.insert n by request_id w).0 ≡ ok (some row)
      → seen.receipts (database.insert n by request_id w).1 n ≡ some row
  -- ON CONFLICT DO NOTHING
  pub insert_keeps :
      (n : ℕ) (by request_id : String) (w : W) (m : ℕ) (row : Receipt)
      → seen.receipts w m ≡ some row
      → seen.receipts (database.insert n by request_id w).1 m ≡ some row
  pub read_sent : (n : ℕ) → Stable seen.sent (database.read n)
  pub read_deleted : (n : ℕ) → Stable seen.deleted (database.read n)
  pub read_receipts : (n : ℕ) → Stable seen.receipts (database.read n)
  pub read_found :
      (n : ℕ) (w : W) (row : Receipt)
      → (database.read n w).0 ≡ ok (some row)
      → seen.receipts w n ≡ some row

module _ {W : Type 0} (sqs : Sqs W) (database : Receipts W) (config : Config)
    (loads : String → Option Value) (dumps : Value → String) where
  abbrev Call : Type 0 → Type 0
  Call A = Exec (Worker × W) Error A

  -- What the calls of the database keep of the world, `receipt` keeps.
  module _ {V : Type 0} (view : W → V)
      (connects : (url : String) → Stable view (database.connect url))
      (inserts : (n : ℕ) (by request_id : String) → Stable view (database.insert n by request_id))
      (reads : (n : ℕ) → Stable view (database.read n)) where
    abbrev world : Worker × W → V
    world x = view x.1

    db-at :
        (s : Worker) (w : W) (b : Bool)
        → not s.connected || database.closed w ≡ b
        → view (db sqs database config loads dumps (s, w)).1.1 ≡ view w
    unfolding db
    db-at s w false e = rw (e, db) refl
    db-at s w true e = elim (Outcome-cases (database.connect (dsn config.database_url) w).0) [
      | inl (done, c) ↦ rw (e, db) (rw c ((connects _).at w))
      | inr (x, c) ↦ rw (e, db) (rw c ((connects _).at w))
    ]

    db-Stable : Stable world (db sqs database config loads dumps)
    db-Stable = record { at = λ x. db-at x.0 x.1 _ refl }

    remote-Stable :
        {A : Type 0} (m : Exec W Error A)
        → Stable view m
        → Stable world (remote sqs database config loads dumps m)
    remote-Stable m h = record { at = λ x. h.at x.1 }

    read_back-Stable :
        (row : Option Receipt) → Stable world (read_back sqs database config loads dumps row)
    unfolding read_back
    read_back-Stable none = search stable_rules
    read_back-Stable (some row) = search stable_rules

    inserted-Stable :
        (n : ℕ) (row : Option Receipt)
        → Stable world (inserted sqs database config loads dumps n row)
    unfolding inserted
    inserted-Stable n (some row) = search stable_rules
    inserted-Stable n none =
        Stable-bind (remote sqs database config loads dumps (database.read n)) _
          (remote-Stable _ (reads n)) read_back-Stable

    pub receipt-Stable :
        (n : ℕ) (request_id : String)
        → Stable world (receipt sqs database config loads dumps n request_id)
    unfolding receipt
    receipt-Stable n request_id = Stable-bind (db sqs database config loads dumps) _ db-Stable λ _.
        Stable-bind
          (remote sqs database config loads dumps (database.insert n config.worker_id request_id)) _
          (remote-Stable _ (inserts n config.worker_id request_id)) (inserted-Stable n)

  module _ (seen : Seen W) (laws : DeliveryLaws sqs database seen) where
    -- the receipt that `receipt` answers is the one in the table
    abbrev Holds : ℕ → Receipt × Bool → Worker × W → Type 0
    Holds n r x = seen.receipts x.1 n ≡ some r.0

    read_back-Holds :
        (n : ℕ) (x : Worker × W) (row : Option Receipt) (r : Receipt × Bool)
        → (database.read n x.1).0 ≡ ok row
        → (read_back sqs database config loads dumps row (x.0, (database.read n x.1).1)).0 ≡ ok r
        → Holds n r (read_back sqs database config loads dumps row (x.0, (database.read n x.1).1)).1
    unfolding read_back
    read_back-Holds n x none r e h = cc h
    read_back-Holds n x (some row) r e h =
        ap (λ f. f n) ((laws.read_receipts n).at x.1)
        ∙ laws.read_found n x.1 row e
        ∙ ap (λ y. some y.0) (ok-injective h)

    inserted-Holds :
        (n : ℕ) (by request_id : String) (s : Worker) (u : W) (row : Option Receipt)
        (r : Receipt × Bool)
        → (database.insert n by request_id u).0 ≡ ok row
        → (inserted sqs database config loads dumps n row
            (s, (database.insert n by request_id u).1)).0
          ≡ ok r
        → Holds n r
            (inserted sqs database config loads dumps n row
              (s, (database.insert n by request_id u).1)).1
    unfolding inserted
    inserted-Holds n by request_id s u (some row) r e h =
        laws.insert_new n by request_id u row e ∙ ap (λ y. some y.0) (ok-injective h)
    inserted-Holds n by request_id s u none r e h =
        let v = (database.insert n by request_id u).1 in
        elim (Outcome-cases (database.read n v).0) [
          | inr (x, c) ↦ cc (rw (c, inserted) at h)
          | inl (row, c) ↦
              rw (c, inserted) (read_back-Holds n (s, v) row r c (rw (c, inserted) at h))
        ]

    receipt-Holds :
        (n : ℕ) (request_id : String)
        → Ensures (Holds n) (receipt sqs database config loads dumps n request_id)
    unfolding receipt
    receipt-Holds n request_id = Ensures-bind (db sqs database config loads dumps) _ λ _. record {
      at = λ x r h. elim (Outcome-cases (database.insert n config.worker_id request_id x.1).0) [
        | inr (y, c) ↦ cc (rw c at h)
        | inl (row, c) ↦
            rw c (inserted-Holds n config.worker_id request_id x.0 x.1 row r c (rw c at h))
      ];
    }

    -- A message was left, or it was deleted with its report sent and its receipt kept.
    abbrev pub Reported : String → Worker × W → Worker × W → Type 0
    Reported body x y =
        (seen.deleted y.1 ≡ seen.deleted x.1)
        ⊎ ((n : ℕ) × (request_id : String) × (row : Receipt) × (parse_item_created loads body
              ≡ ok (n, request_id))
            × (seen.receipts y.1 n ≡ some row)
            × (seen.sent y.1
                ≡ (config.results_queue_url, item_processed_message dumps n row.0 row.1 request_id)
                  ∷ seen.sent x.1))

    receipted-reports :
        (body handle : String) (c : Created) (x u : Worker × W) (o : Outcome Error (Receipt × Bool))
        → parse_item_created loads body ≡ ok c
        → seen.deleted u.1 ≡ seen.deleted x.1
        → seen.sent u.1 ≡ seen.sent x.1
        → ((r : Receipt × Bool) → o ≡ ok r → Holds c.0 r u)
        → Reported body x (receipted sqs database config loads dumps handle c o u).1
    unfolding receipted
    receipted-reports body handle c x u (raised database_error) p d s h = inl d
    receipted-reports body handle c x u (raised (exception name)) p d s h = inl d
    receipted-reports body handle c x u (ok (row, first)) p d s h =
        let message = item_processed_message dumps c.0 row.0 row.1 c.1 in
        let queue = config.results_queue_url in
        elim (Outcome-cases (sqs.send_message queue message u.1).0) [
          | inr (e, failed) ↦
              inl (rw (failed, receipted, reported) ((laws.send_deleted queue message).at u.1 ∙ d))
          | inl (done, went) ↦
              let v = (sqs.send_message queue message u.1).1 in
              inr (
                c.0,
                c.1,
                row,
                p,
                rw (went, receipted, reported)
                    (ap (λ f. f c.0)
                        ((laws.delete_receipts config.queue_url handle).at v
                          ∙ (laws.send_receipts queue message).at u.1)
                      ∙ h (row, first) refl),
                rw (went, receipted, reported)
                    ((laws.delete_sent config.queue_url handle).at v
                      ∙ laws.send_done queue message u.1 went
                      ∙ ap (λ y. (queue, message) ∷ y) s),
              )
        ]

    parsed-reports :
        (body handle : String) (x : Worker × W) (r : Outcome Poison Created)
        → parse_item_created loads body ≡ r
        → Reported body x (parsed sqs database config loads dumps handle r x).1
    unfolding parsed
    parsed-reports body handle x (raised p) e = inl refl
    parsed-reports body handle x (ok (n, request_id)) e =
        receipted-reports body handle (n, request_id) x
          (receipt sqs database config loads dumps n request_id x).1
          (receipt sqs database config loads dumps n request_id x).0 e
          ((receipt-Stable seen.deleted laws.connect_deleted laws.insert_deleted laws.read_deleted n
              request_id).at
            x)
          ((receipt-Stable seen.sent laws.connect_sent laws.insert_sent laws.read_sent n
              request_id).at
            x)
          ((receipt-Holds n request_id).at x)

    handle_with-reports :
        (body : String) (r : Option String) (x : Worker × W)
        → Reported body x (handle_with sqs database config loads dumps body r x).1
    unfolding handle_with
    handle_with-reports body none x = inl refl
    handle_with-reports body (some handle) x =
        parsed-reports body handle x (parse_item_created loads body) refl

    -- Handling a message deletes nothing, or the message names an item, that item then has a
    -- receipt, and what was sent is the report of that receipt and nothing else. This asks of SQS
    -- and the database their laws.
    pub handle_reports :
        (message : Message) (x : Worker × W)
        → Reported message.body x (handle sqs database config loads dumps message x).1
    unfolding handle
    handle_reports message x = handle_with-reports message.body message.receipt_handle x
