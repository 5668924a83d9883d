-- ===== src/Worker.antt =====
-- worker/consumer/main.py: the worker's loop. SQS and PostgreSQL are the fields of `Sqs` and
-- `Receipts`; logging, sleeping and the heartbeat file change nothing that the worker reads, and
-- are left out.
pub mod Delivery
pub mod Redelivery
use Prim.Native.String.{slice, len}
use text.Mathlib.Text.{find?}
use aws_devops_sdet_demo.Prelude.{
  ℕ, zero, suc, ◌+◌, String, Bool, true, false, not, ◌||◌, Option, none, some, List, [], ◌∷◌, ◌++◌,
  ◌+++◌, Value, Outcome, ok, raised, Exec, pure, raise, attempt, ◌>>=◌, ◌>>◌, ◌==◌, if◌then◌else◌,
}
use aws_devops_sdet_demo.Messages.{Poison, Created, parse_item_created, item_processed_message}

pub data Error : Type 0 where
  -- psycopg2.Error
  database_error : Error
  -- any other exception, by the name of its type
  exception : String → Error

pub record Message : Type 0 where
  pub body : String
  pub receipt_handle : Option String

pub record Sqs (W : Type 0) : Type 0 where
  pub receive_message : String → ℕ → Exec W Error (List Message)
  -- the queue and the body
  pub send_message : String → String → Exec W Error (Unit {0})
  -- the queue and the receipt handle
  pub delete_message : String → String → Exec W Error (Unit {0})

-- A receipt: when an item was processed, and by whom.
abbrev pub Receipt : Type 0
Receipt = String × String

pub record Receipts (W : Type 0) : Type 0 where
  pub connect : String → Exec W Error (Unit {0})
  pub closed : W → Bool
  -- RECEIPT_SQL: the row inserted, or none on a conflict
  pub insert : ℕ → String → String → Exec W Error (Option Receipt)
  -- RECEIPT_READ_SQL
  pub read : ℕ → Exec W Error (Option Receipt)

pub record Config : Type 0 where
  pub queue_url : String
  pub results_queue_url : String
  pub database_url : String
  pub worker_id : String

-- `Worker`: `connected` where `conn` is not None. `stop` is set by a signal, and stands in the world.
pub record Worker : Type 0 where
  pub connected : Bool
  pub processed : ℕ
  pub skipped : ℕ
  pub poison : ℕ

abbrev driver_scheme : String
driver_scheme = "postgresql+psycopg2://"

-- `url.replace(driver_scheme, "postgresql://", 1)`
replaced_at : String → Option ℕ → String
replaced_at url none = url
replaced_at url (some i) =
    slice url 0 i +++ ("postgresql://" +++ slice url (i + len driver_scheme) (len url))

unfoldable pub dsn : String → String
unfolding replaced_at
dsn url = replaced_at url (find? url driver_scheme)

module _ {W : Type 0} (sqs : Sqs W) (database : Receipts W) (config : Config)
    (loads : String → Option Value) (dumps : Value → String) where
  abbrev pub Call : Type 0 → Type 0
  Call A = Exec (Worker × W) Error A

  -- a call of the network, which leaves the worker as it was
  abbrev pub remote : {A : Type 0} → Exec W Error A → Call A
  remote m (s, w) = ((m w).0, (s, (m w).1))

  abbrev pub update : (Worker → Worker) → Call (Unit {0})
  update f (s, w) = (ok tt, (f s, w))

  abbrev pub set_connected : Bool → Worker → Worker
  set_connected b s = record s { connected = b }

  unfoldable pub db : Call (Unit {0})
  unfolding dsn
  db (s, w) =
      (if not s.connected || database.closed w
          then (do remote (database.connect (dsn config.database_url)); update (set_connected true))
          else pure tt)
        (s, w)

  -- `row[0]` of no row is a TypeError
  unfoldable pub read_back : Option Receipt → Call (Receipt × Bool)
  read_back none = raise (exception "TypeError")
  read_back (some row) = pure (row, false)

  unfoldable pub inserted : ℕ → Option Receipt → Call (Receipt × Bool)
  unfolding read_back
  inserted item_id (some row) = pure (row, true)
  inserted item_id none = remote (database.read item_id) >>= read_back

  unfoldable pub receipt : ℕ → String → Call (Receipt × Bool)
  unfolding db inserted
  receipt item_id request_id = do
    db
    row ← remote (database.insert item_id config.worker_id request_id)
    inserted item_id row

  abbrev pub counted : Bool → Worker → Worker
  counted true s = record s { processed = suc s.processed }
  counted false s = record s { skipped = suc s.skipped }

  abbrev pub poisoned : Worker → Worker
  poisoned s = record s { poison = suc s.poison }

  -- after the report: a message whose report was not sent is left
  unfoldable pub reported : String → Bool → Outcome Error (Unit {0}) → Call (Unit {0})
  reported handle first (raised e) = pure tt
  reported handle first (ok _) = do
    update (counted first)
    remote (sqs.delete_message config.queue_url handle)

  -- after the receipt: psycopg2.Error drops the connection, and leaves the message
  unfoldable pub receipted : String → Created → Outcome Error (Receipt × Bool) → Call (Unit {0})
  unfolding reported
  receipted handle (item_id, request_id) (raised database_error) = update (set_connected false)
  receipted handle (item_id, request_id) (raised e) = raise e
  receipted handle (item_id, request_id) (ok (row, first)) = do
    sent ← attempt (
        remote (
          sqs.send_message config.results_queue_url
            (item_processed_message dumps item_id row.0 row.1 request_id)))
    reported handle first sent

  unfoldable pub parsed : String → Outcome Poison Created → Call (Unit {0})
  unfolding receipt receipted
  parsed handle (raised p) = update poisoned
  parsed handle (ok (item_id, request_id)) = do
    row ← attempt (receipt item_id request_id)
    receipted handle (item_id, request_id) row

  unfoldable pub handle_with : String → Option String → Call (Unit {0})
  unfolding parsed
  handle_with body none = raise (exception "KeyError")
  handle_with body (some handle) = parsed handle (parse_item_created loads body)

  unfoldable pub handle : Message → Call (Unit {0})
  unfolding handle_with
  handle message = handle_with message.body message.receipt_handle

  -- The messages of one answer, until a signal.
  module _ (stop : W → Bool) where
    unfoldable pub handle_batch : List Message → Call (Unit {0})
    unfolding handle
    handle_batch [] x = (ok tt, x)
    handle_batch (message ∷ rest) (s, w) =
        if stop w then (ok tt, (s, w)) else (handle message >> handle_batch rest) (s, w)

    received : Outcome Error (List Message) → Call (Unit {0})
    unfolding handle_batch
    received (raised e) = pure tt
    received (ok messages) = handle_batch messages

    -- `run`, for at most as many passes as `fuel`: false where these are spent
    unfoldable pub run : ℕ → Call Bool
    unfolding received
    run zero x = (ok false, x)
    run (suc fuel) (s, w) =
        if stop w
        then (ok true, (s, w))
        else (do
          messages ← attempt (remote (sqs.receive_message config.queue_url 10))
          received messages
          run fuel)
            (s, w)

    abbrev unset : String → String → List String
    unset name value = if value == "" then name ∷ [] else []

    pub missing : List String
    missing =
        unset "ITEMS_QUEUE_URL" config.queue_url
        ++ (unset "RESULTS_QUEUE_URL" config.results_queue_url
            ++ unset "DATABASE_URL" config.database_url)

    -- `main`: the exit code 2 without its settings, 0 where the loop has ended
    exit_code : Bool → Option ℕ
    exit_code true = some 0
    exit_code false = none

    main_with : List String → ℕ → Exec W Error (Option ℕ)
    unfolding run exit_code
    main_with (name ∷ names) fuel w = (ok (some 2), w)
    main_with [] fuel w =
        let r =
          (run fuel >>= λ ended. pure (exit_code ended))
            (record { connected = false; processed = 0; skipped = 0; poison = 0 }, w) in
        (r.0, r.1.1)

    unfoldable pub main : ℕ → Exec W Error (Option ℕ)
    unfolding missing main_with
    main fuel = main_with missing fuel
