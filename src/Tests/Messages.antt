-- ===== src/Tests/Messages.antt =====
-- The messages, the worker's and the api's queues, and the outbox, in memory.

use aws_devops_sdet_demo.Prelude.{
  zero, suc, ℕ, ◌<◌, true, String, ◌≡◌, ◌⊎◌, refl, false, Option, none, some, List, [], ◌∷◌, Value,
  Fields, get, Exec, Outcome, ok, raised, Stable, ◌+◌, arith,
}
use aws_devops_sdet_demo.Messages.{
  parse_item_created, parse_item_processed, item_created_event, item_created_message,
  item_processed_event, item_processed_message, or_dash, text_of,
}
use aws_devops_sdet_demo.Messages.Contract.{
  Follows, parse_item_created-Follows, item_created_round_trip, item_processed_round_trip,
}
use aws_devops_sdet_demo.Worker
use aws_devops_sdet_demo.Worker.Delivery
use aws_devops_sdet_demo.Worker.Redelivery
use aws_devops_sdet_demo.Results
use aws_devops_sdet_demo.Results.Projection
use aws_devops_sdet_demo.Outbox.{OutboxEvent, Counts, relay_batch}
use aws_devops_sdet_demo.Outbox.Batch.{Batched, relay_batch_lem, number_of_rows, published}

abbrev created : Value
created = item_created_event 7 "lamp" "2026-11-25" none

abbrev processed : Value
processed = item_processed_event 7 "2026-11-25" "w1" "-"

-- json for the two messages
abbrev dumps : Value → String
dumps v = "message"

abbrev loads_created : String → Option Value
loads_created body = some created

abbrev loads_processed : String → Option Value
loads_processed body = some processed

positive : 0 < 7
positive = ground arith

item_created_round_trip_example :
    parse_item_created loads_created (item_created_message dumps 7 "lamp" "2026-11-25" none)
    ≡ ok (7, or_dash none)
item_created_round_trip_example =
    item_created_round_trip loads_created dumps 7 "lamp" "2026-11-25" none positive refl

item_processed_round_trip_example :
    parse_item_processed loads_processed (item_processed_message dumps 7 "2026-11-25" "w1" "-")
    ≡ ok (record {
      item_id = 7;
      processed_at = "2026-11-25";
      processed_by = "w1";
      request_id = some (or_dash (some "-"));
    })
item_processed_round_trip_example =
    item_processed_round_trip loads_processed dumps 7 "2026-11-25" "w1" "-" positive refl refl refl

created_read : parse_item_created loads_created "message" ≡ ok (7, "-")
unfolding parse_item_created item_created_event
created_read = refl

parse_item_created-Follows_example :
    (event : Fields) × Follows "item.created" (loads_created "message") event 7
    × ("-" ≡ or_dash (text_of (get "request_id" event)))
parse_item_created-Follows_example =
    parse_item_created-Follows loads_created "message" 7 "-" created_read

-- The queues and the receipts.
abbrev Pairs : Type 0
Pairs = List (String × String)

record Queues : Type 0 where
  sent : Pairs
  deleted : Pairs
  receipt : Option Worker.Receipt

abbrev sqs : Worker.Sqs Queues
sqs = record {
  receive_message = λ queue n w. (ok [], w);
  send_message = λ queue body w. (ok tt, record w { sent = (queue, body) ∷ w.sent });
  delete_message = λ queue handle w. (ok tt, record w { deleted = (queue, handle) ∷ w.deleted });
}

abbrev read_receipt : Option Worker.Receipt → Option Worker.Receipt → Option Worker.Receipt
read_receipt none new = new
read_receipt (some old) new = none

abbrev kept_receipt : Option Worker.Receipt → Option Worker.Receipt → Option Worker.Receipt
kept_receipt none new = new
kept_receipt (some old) new = some old

-- one receipt, for every item
abbrev receipts : Worker.Receipts Queues
receipts = record {
  connect = λ url w. (ok tt, w);
  closed = λ w. false;
  insert = λ n by request_id w. (
    ok (read_receipt w.receipt (some ("noon", by))),
    record w { receipt = kept_receipt w.receipt (some ("noon", by)) },
  );
  read = λ n w. (ok w.receipt, w);
}

abbrev seen : Worker.Delivery.Seen Queues
seen = record { sent = λ w. w.sent; deleted = λ w. w.deleted; receipts = λ w n. w.receipt }

insert_new :
    (r : Option Worker.Receipt) (by : String) (row : Worker.Receipt)
    → ◌≡◌ {A = Outcome Worker.Error (Option Worker.Receipt)}
        (ok (read_receipt r (some ("noon", by))))
        (ok (some row))
    → kept_receipt r (some ("noon", by)) ≡ some row
insert_new none by row h = cc
insert_new (some old) by row h = cc h

insert_keeps :
    (r : Option Worker.Receipt) (by : String) (row : Worker.Receipt)
    → r ≡ some row
    → kept_receipt r (some ("noon", by)) ≡ some row
insert_keeps none by row h = cc h
insert_keeps (some old) by row h = h

quiet :
    {V A : Type 0} (view : Queues → V) (m : Exec Queues Worker.Error A)
    → ((w : Queues) → view (m w).1 ≡ view w)
    → Stable view m
quiet view m h = record { at = h }

laws : Worker.Delivery.DeliveryLaws sqs receipts seen
laws = record {
  send_done = λ queue body w h. refl;
  send_deleted = λ queue body. record { at = λ w. refl };
  send_receipts = λ queue body. record { at = λ w. refl };
  delete_sent = λ queue handle. record { at = λ w. refl };
  delete_receipts = λ queue handle. record { at = λ w. refl };
  connect_sent = λ url. record { at = λ w. refl };
  connect_deleted = λ url. record { at = λ w. refl };
  connect_receipts = λ url. record { at = λ w. refl };
  insert_sent = λ n by request_id. record { at = λ w. refl };
  insert_deleted = λ n by request_id. record { at = λ w. refl };
  insert_new = λ n by request_id w row. insert_new w.receipt by row;
  insert_keeps = λ n by request_id w m row. insert_keeps w.receipt by row;
  read_sent = λ n. record { at = λ w. refl };
  read_deleted = λ n. record { at = λ w. refl };
  read_receipts = λ n. record { at = λ w. refl };
  read_found = λ n w row h. cc h;
}

abbrev config : Worker.Config
config = record {
  queue_url = "items";
  results_queue_url = "results";
  database_url = "db";
  worker_id = "w1";
}

abbrev message : Worker.Message
message = record { body = "message"; receipt_handle = some "h1" }

abbrev started : Worker.Worker × Queues
started = (
  record { connected = false; processed = 0; skipped = 0; poison = 0 },
  record { sent = []; deleted = []; receipt = none },
)

handle_reports_example :
    Worker.Delivery.Reported sqs receipts config loads_created dumps seen laws "message" started
      (Worker.handle sqs receipts config loads_created dumps message started).1
handle_reports_example =
    Worker.Delivery.handle_reports sqs receipts config loads_created dumps seen laws message started

-- A worker to which another worker's message is delivered again.
abbrev redelivered : Worker.Worker × Queues
redelivered = (
  record { connected = true; processed = 0; skipped = 0; poison = 0 },
  record { sent = []; deleted = []; receipt = some ("dawn", "w0") },
)

redelivery_reports_alike_example :
    let y = (Worker.handle sqs receipts config loads_created dumps message redelivered).1 in
    Worker.Redelivery.Written sqs receipts config loads_created dumps seen laws 7 ("dawn", "w0") y
    × ((seen.deleted y.1 ≡ seen.deleted redelivered.1)
        ⊎ (seen.sent y.1
            ≡ (
              "results",
              Worker.Redelivery.first_report sqs receipts config loads_created dumps seen laws 7
                  ("dawn", "w0")
                  "-",
            )
              ∷ []))
redelivery_reports_alike_example =
    Worker.Redelivery.redelivery_reports_alike sqs receipts config loads_created dumps seen laws 7
      ("dawn", "w0") message redelivered "-" created_read refl

-- The api's session: the queue's deletions are the world, and the row is written anew.
abbrev session : Results.Session Pairs
session = record {
  execute = λ report w. (ok 1, w);
  commit = λ w. (ok tt, w);
  rollback = λ w. (ok tt, w);
  close = λ w. (ok tt, w);
}

abbrev results_sqs : Results.Sqs Pairs
results_sqs = record {
  receive_message = λ queue n w. (ok [], w);
  delete_message = λ queue handle w. (ok tt, (queue, handle) ∷ w);
}

abbrev all_deleted : Pairs → Pairs
all_deleted w = w

session_laws : Results.Projection.ProjectionLaws session all_deleted
session_laws = record {
  execute_keeps = λ report. record { at = λ w. refl };
  commit_keeps = record { at = λ w. refl };
  rollback_keeps = record { at = λ w. refl };
  close_keeps = record { at = λ w. refl };
}

abbrev report_message : Results.Message
report_message = record { body = "message"; receipt_handle = some "h2" }

handle_deletes_example :
    (all_deleted (Results.handle session results_sqs "results" loads_processed report_message []).1
      ≡ [])
    ⊎ Results.Projection.Deleted session results_sqs "results" loads_processed all_deleted
        session_laws report_message []
handle_deletes_example =
    Results.Projection.handle_deletes session results_sqs "results" loads_processed all_deleted
      session_laws report_message []

-- The outbox: the world counts the sends, and the second of them fails.
abbrev send_at : ℕ → String → String → String → Exec ℕ String String
send_at zero queue body event_type w = (ok "m1", 1)
send_at (suc n) queue body event_type w = (raised "ClientError", 2)

abbrev send : String → String → String → Exec ℕ String String
send queue body event_type w = send_at w queue body event_type w

abbrev clock : Exec ℕ String ℕ
clock w = (ok 900, w)

abbrev event : ℕ → OutboxEvent
event n = record {
  id = n;
  event_type = "item.created";
  payload = created;
  published_at = none;
  attempts = some 0;
}

abbrev relayed_rows : List OutboxEvent × Counts
relayed_rows = (
  record {
    id = 1;
    event_type = "item.created";
    payload = created;
    published_at = some 900;
    attempts = some 1;
  }
      ∷ record {
        id = 2;
        event_type = "item.created";
        payload = created;
        published_at = none;
        attempts = some 1;
      }
      ∷ [],
  record { sent = 1; failed = 1 },
)

batch_done : (relay_batch dumps send "items" clock (event 1 ∷ event 2 ∷ []) 0).0 ≡ ok relayed_rows
unfolding relay_batch
batch_done = refl

relay_batch_lem_example :
    Batched dumps send "items" clock 0
      (event 1 ∷ event 2 ∷ [])
      relayed_rows.0
      1
      1
      (relay_batch dumps send "items" clock (event 1 ∷ event 2 ∷ []) 0).1
    × (1 + 1 ≡ number_of_rows (event 1 ∷ event 2 ∷ []))
    × (published relayed_rows.0 ≡ 1)
relay_batch_lem_example =
    relay_batch_lem dumps send "items" clock (event 1 ∷ event 2 ∷ []) 0 relayed_rows
      (refl, (refl, tt)) batch_done
