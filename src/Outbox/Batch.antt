-- ===== src/Outbox/Batch.antt =====
-- On relay_batch of app/src/outbox.py: the rows and the counts of a batch.
use aws_devops_sdet_demo.Prelude.{
  ℕ, suc, ◌+◌, String, ◌≡◌, refl, inl, inr, Option, none, some, List, [], ◌∷◌, Value, ok, raised,
  Exec, Outcome-cases, ok-injective, arith, subst,
}
use aws_devops_sdet_demo.Outbox.{OutboxEvent, Counts, tried, relayed, relay_batch}

abbrev pub number_of_rows : List OutboxEvent → ℕ
number_of_rows [] = 0
number_of_rows (row ∷ rows) = suc (number_of_rows rows)

abbrev pub is_published : Option ℕ → ℕ
is_published none = 0
is_published (some at) = 1

abbrev pub published : List OutboxEvent → ℕ
published [] = 0
published (row ∷ rows) = is_published row.published_at + published rows

abbrev pub AllUnpublished : List OutboxEvent → Type 0
AllUnpublished [] = Unit
AllUnpublished (row ∷ rows) = (row.published_at ≡ none) × AllUnpublished rows

module _ {W E : Type 0} (dumps : Value → String)
    (send_fn : String → String → String → Exec W E String) (queue_url : String)
    (now : Exec W E ℕ) where
  abbrev sending : OutboxEvent → Exec W E String
  sending row = send_fn queue_url (dumps row.payload) row.event_type

  -- A batch, from the world before it to the world after it: each row is sent and marked, or its send
  -- raised and it is left; each counts the attempt.
  pub data Batched : W → List OutboxEvent → List OutboxEvent → ℕ → ℕ → W → Type 0 where
    no_rows : {w : W} → Batched w [] [] 0 0 w
    one_left :
        {w u : W} {row : OutboxEvent} {rows afters : List OutboxEvent} {s f : ℕ} {e : E}
        → (sending row w).0 ≡ raised e
        → Batched (sending row w).1 rows afters s f u
        → Batched w
            (row ∷ rows)
            (record row { attempts = some (suc (tried row.attempts)) } ∷ afters)
            s
            (suc f)
            u
    one_sent :
        {w u : W} {row : OutboxEvent} {rows afters : List OutboxEvent} {s f at : ℕ}
        {message_id : String}
        → (sending row w).0 ≡ ok message_id
        → (now (sending row w).1).0 ≡ ok at
        → Batched (now (sending row w).1).1 rows afters s f u
        → Batched w
            (row ∷ rows)
            (record row { published_at = some at; attempts = some (suc (tried row.attempts)) }
              ∷ afters)
            (suc s)
            f
            u

  batch-Batched :
      (rows : List OutboxEvent) (w : W) (r : List OutboxEvent × Counts)
      → (relay_batch dumps send_fn queue_url now rows w).0 ≡ ok r
      → Batched w rows r.0 r.1.sent r.1.failed (relay_batch dumps send_fn queue_url now rows w).1
  unfolding relay_batch relayed
  batch-Batched [] w r h =
      subst (λ r. Batched w [] r.0 r.1.sent r.1.failed w) (ok-injective h) no_rows
  batch-Batched (row ∷ rest) w r h = elim (Outcome-cases (sending row w).0) [
    | inr (e, c) ↦
        let v = (sending row w).1 in
        elim (Outcome-cases (relay_batch dumps send_fn queue_url now rest v).0) [
          | inr (x, d) ↦ cc (rw (c, relay_batch, relayed, d) at h)
          | inl (others, d) ↦
              rw (c, relay_batch, relayed, d)
                (subst
                  (λ r.
                    Batched w (row ∷ rest) r.0 r.1.sent r.1.failed
                      (relay_batch dumps send_fn queue_url now rest v).1)
                  (ok-injective (rw (c, relay_batch, relayed, d) at h))
                  (one_left c (batch-Batched rest v others d)))
        ]
    | inl (message_id, c) ↦
        let v = (sending row w).1 in
        elim (Outcome-cases (now v).0) [
          | inr (x, t) ↦ cc (rw (c, relay_batch, relayed, t) at h)
          | inl (at, t) ↦
              let u = (now v).1 in
              elim (Outcome-cases (relay_batch dumps send_fn queue_url now rest u).0) [
                | inr (x, d) ↦ cc (rw (c, relay_batch, relayed, t, d) at h)
                | inl (others, d) ↦
                    rw (c, relay_batch, relayed, t, d)
                      (subst
                        (λ r.
                          Batched w (row ∷ rest) r.0 r.1.sent r.1.failed
                            (relay_batch dumps send_fn queue_url now rest u).1)
                        (ok-injective (rw (c, relay_batch, relayed, t, d) at h))
                        (one_sent c t (batch-Batched rest u others d)))
              ]
        ]
  ]

  Batched-adds_up :
      (w : W) (rows afters : List OutboxEvent) (s f : ℕ) (u : W)
      → Batched w rows afters s f u
      → s + f ≡ number_of_rows rows
  Batched-adds_up w _ _ _ _ u no_rows = refl
  Batched-adds_up w _ _ _ _ u (one_left {rows = rows} {afters = afters} {s = s} {f = f} c b) =
      let e = Batched-adds_up _ rows afters s f u b in ground arith
  Batched-adds_up w _ _ _ _ u (one_sent {rows = rows} {afters = afters} {s = s} {f = f} c t b) =
      let e = Batched-adds_up _ rows afters s f u b in ground arith

  Batched-published :
      (w : W) (rows afters : List OutboxEvent) (s f : ℕ) (u : W)
      → AllUnpublished rows
      → Batched w rows afters s f u
      → published afters ≡ s
  Batched-published w _ _ _ _ u _ no_rows = refl
  Batched-published w _ _ _ _ u both
        (one_left {rows = rows} {afters = afters} {s = s} {f = f} c b) =
      let e = Batched-published _ rows afters s f u both.1 b in rw both.0 (ground arith)
  Batched-published w _ _ _ _ u both
        (one_sent {rows = rows} {afters = afters} {s = s} {f = f} c t b) =
      let e = Batched-published _ rows afters s f u both.1 b in ground arith

  -- Where a batch of unpublished rows returns, every row has one more attempt, it is published at
  -- the clock's time where its send returned and as it was where its send raised; the counts add
  -- up to the rows, and `sent` is the number of rows that are now published.
  pub relay_batch_lem :
      (rows : List OutboxEvent) (w : W) (r : List OutboxEvent × Counts)
      → AllUnpublished rows
      → (relay_batch dumps send_fn queue_url now rows w).0 ≡ ok r
      → Batched w rows r.0 r.1.sent r.1.failed (relay_batch dumps send_fn queue_url now rows w).1
        × (r.1.sent + r.1.failed ≡ number_of_rows rows)
        × (published r.0 ≡ r.1.sent)
  relay_batch_lem rows w r fresh h =
      let b = batch-Batched rows w r h in
      (b, Batched-adds_up w rows r.0 _ _ _ b, Batched-published w rows r.0 _ _ _ fresh b)
