-- ===== src/Outbox.antt =====
-- app/src/outbox.py: the relay, which sends what the outbox holds. `send` and the clock are
-- parameters; logging and waiting change nothing that the relay reads.
pub mod Batch
use aws_devops_sdet_demo.Prelude.{
  ℕ, zero, suc, ◌+◌, String, Bool, true, false, Option, none, some, List, [], ◌∷◌, Value, Outcome,
  ok, raised, Exec, pure, raise, attempt, ◌>>=◌, ◌>>◌, ltb, if◌then◌else◌,
}

-- A row of `outbox` (app/src/models.py). `attempts` is None before the row is flushed.
pub record OutboxEvent : Type 0 where
  pub id : ℕ
  pub event_type : String
  pub payload : Value
  pub published_at : Option ℕ
  pub attempts : Option ℕ

pub record Counts : Type 0 where
  pub sent : ℕ
  pub failed : ℕ

abbrev pub batch : ℕ
batch = 20

-- `row.attempts or 0`
abbrev pub tried : Option ℕ → ℕ
tried none = 0
tried (some n) = n

module _ {W E : Type 0} (dumps : Value → String)
    (send_fn : String → String → String → Exec W E String) (queue_url : String)
    (now : Exec W E ℕ) where
  abbrev pub left : OutboxEvent → OutboxEvent
  left row = record row { attempts = some (suc (tried row.attempts)) }

  abbrev pub marked : ℕ → OutboxEvent → OutboxEvent
  marked at row = record row { published_at = some at; attempts = some (suc (tried row.attempts)) }

  abbrev pub add_sent : Counts → Counts
  add_sent c = record c { sent = suc c.sent }

  abbrev pub add_failed : Counts → Counts
  add_failed c = record c { failed = suc c.failed }

  -- One pass of the loop, told how its send ended: the row as it leaves it, and what it adds up.
  unfoldable pub relayed :
      OutboxEvent → Outcome E String → Exec W E (OutboxEvent × (Counts → Counts))
  relayed row (raised e) = pure (left row, add_failed)
  relayed row (ok message_id) = do at ← now; pure (marked at row, add_sent)

  -- The rows are the ones that the loop has mutated.
  unfoldable pub relay_batch : List OutboxEvent → Exec W E (List OutboxEvent × Counts)
  unfolding relayed
  relay_batch [] = pure ([], record { sent = 0; failed = 0 })
  relay_batch (row ∷ rest) = do
    message_id ← attempt (send_fn queue_url (dumps row.payload) row.event_type)
    here ← relayed row message_id
    others ← relay_batch rest
    pure (here.0 ∷ others.0, here.1 others.1)

  -- `select_unpublished n`: at most n unpublished rows, oldest first, locked; `commit` flushes the
  -- mutated rows; `close` leaves the `with`.
  module _ (select_unpublished : ℕ → Exec W E (List OutboxEvent))
      (commit : List OutboxEvent → Exec W E (Unit {0})) (close : Exec W E (Unit {0})) where
    relay_rows : List OutboxEvent → Exec W E Counts
    unfolding relay_batch
    relay_rows [] = pure (record { sent = 0; failed = 0 })
    relay_rows (row ∷ rest) = do done ← relay_batch (row ∷ rest); commit done.0; pure done.1

    closing : {A : Type 0} → Outcome E A → Exec W E A
    closing (ok a) = do close; pure a
    closing (raised e) = do close; raise e

    unfoldable pub relay_once : Exec W E Counts
    unfolding relay_rows closing
    relay_once = do counts ← attempt (select_unpublished batch >>= relay_rows); closing counts

    -- A pass that raised counts as one failure.
    abbrev counts_of : Outcome E Counts → Counts
    counts_of (ok counts) = counts
    counts_of (raised e) = record { sent = 0; failed = 1 }

    -- `Relay.run`, for at most as many passes as `fuel`, which answers whether each pass waits
    module _ (is_set : W → Bool) where
      unfoldable pub run : ℕ → Exec W E (List Bool)
      unfolding relay_once
      run zero w = (ok [], w)
      run (suc fuel) w =
          if is_set w
          then (ok [], w)
          else (do
            counts ← attempt relay_once
            waits ← run fuel
            pure (ltb (counts_of counts).sent batch ∷ waits))
              w
