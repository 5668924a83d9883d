-- ===== src/Items/Atomic.antt =====
-- On create_item of app/src/main.py: what its transaction commits.
use aws_devops_sdet_demo.Prelude.{
  ℕ, String, ◌≡◌, ◌≢◌, subst, refl, sym, ap, ◌∙◌, inl, inr, Option, List, ◌∷◌, Value, Outcome, ok,
  raised, Outcome-cases, raised-injective, Stable, stable_rules,
}
use aws_devops_sdet_demo.Messages.{item_created_event}
use aws_devops_sdet_demo.Items.{
  DemoItem, DbError, integrity_error, exception, Error, http, Db, ItemCreate, settled, transaction,
  create_item,
}

ok-apart : {A E : Type 0} {a : A} {e : E} → ◌≢◌ {A = Outcome E A} (ok a) (raised e)
ok-apart h = cc h

-- What the tables hold.
pub record Tables : Type 0 where
  pub items : List DemoItem
  pub outbox : List (String × Value)

abbrev pub add_item : DemoItem → Tables → Tables
add_item item t = record t { items = item ∷ t.items }

abbrev pub add_event : String → Value → Tables → Tables
add_event event_type payload t = record t { outbox = (event_type, payload) ∷ t.outbox }

-- `saved` is what is committed, and `pending` what the session's transaction sees.
pub record DbLaws {W : Type 0} (db : Db W) (saved pending : W → Tables) : Type 0 where
  pub insert_item_saved :
      (name : String) (description : Option String) → Stable saved (db.insert_item name description)
  pub insert_item_done :
      (name : String) (description : Option String) (w : W) (item : DemoItem)
      → (db.insert_item name description w).0 ≡ ok item
      → (item.name ≡ name)
        × (pending (db.insert_item name description w).1 ≡ add_item item (pending w))
  pub insert_event_saved :
      (event_type : String) (payload : Value) → Stable saved (db.insert_event event_type payload)
  pub insert_event_done :
      (event_type : String) (payload : Value) (w : W)
      → (db.insert_event event_type payload w).0 ≡ ok tt
      → pending (db.insert_event event_type payload w).1 ≡ add_event event_type payload (pending w)
  pub commit_done : (w : W) → (db.commit w).0 ≡ ok tt → saved (db.commit w).1 ≡ pending w
  pub commit_refused :
      (w : W) → (db.commit w).0 ≡ raised integrity_error → saved (db.commit w).1 ≡ saved w
  pub rollback_saved : Stable saved db.rollback
  pub refresh_saved : (item_id : ℕ) → Stable saved (db.refresh item_id)

module _ {W : Type 0} (db : Db W) (saved pending : W → Tables)
    (laws : DbLaws db saved pending) where
  -- what a creation that returned has committed
  pub record Created (payload : ItemCreate) (request_id : Option String) (before after : Tables)
      : Type 0 where
    pub item : DemoItem
    pub named : item.name ≡ payload.name
    pub both :
        after
        ≡ add_event "item.created"
            (item_created_event item.id item.name item.created_at request_id)
            (add_item item before)

  transaction-Created :
      (payload : ItemCreate) (request_id : Option String) (w : W) (n : ℕ)
      → (transaction db payload request_id w).0 ≡ ok n
      → Created payload request_id (pending w) (saved (transaction db payload request_id w).1)
  transaction-Created payload request_id w n h =
      elim (Outcome-cases (db.insert_item payload.name payload.description w).0) [
        | inr (e, i) ↦ cc (rw i at h)
        | inl (item, i) ↦
            let v = (db.insert_item payload.name payload.description w).1 in
            let event = item_created_event item.id item.name item.created_at request_id in
            elim (Outcome-cases (db.insert_event "item.created" event v).0) [
              | inr (e, j) ↦ cc (rw (i, j) at h)
              | inl (done, j) ↦
                  let u = (db.insert_event "item.created" event v).1 in
                  elim (Outcome-cases (db.commit u).0) [
                    | inr (e, c) ↦ cc (rw (i, j, c) at h)
                    | inl (over, c) ↦
                        let (name, added) =
                          laws.insert_item_done payload.name payload.description w item i in
                        record {
                          item = item;
                          named = name;
                          both =
                              rw (i, j, c)
                                (laws.commit_done u c
                                  ∙ laws.insert_event_done "item.created" event v j
                                  ∙ ap (add_event "item.created" event) added);
                        }
                  ]
            ]
      ]

  settled-saved : (name : String) (r : Outcome DbError ℕ) → Stable saved (settled db name r)
  unfolding settled
  settled-saved name (ok n) = search (stable_rules, laws.refresh_saved)
  settled-saved name (raised integrity_error) = record {
    at = λ w. elim (Outcome-cases (db.rollback w).0) [
      | inl (done, e) ↦ rw (e, settled) (laws.rollback_saved.at w)
      | inr (x, e) ↦ rw (e, settled) (laws.rollback_saved.at w)
    ];
  }
  settled-saved name (raised (exception x)) = search stable_rules

  conflict-raises :
      (name : String) (u : W) (r : Outcome Error DemoItem)
      → (settled db name (raised integrity_error) u).0 ≡ r
      → (e : Error) × (r ≡ raised e)
  unfolding settled
  conflict-raises name u (raised e) h = (e, refl)
  conflict-raises name u (ok item) h = elim (Outcome-cases (db.rollback u).0) [
    | inl (done, e) ↦ cc (rw (e, settled) at h)
    | inr (x, e) ↦ cc (rw (e, settled) at h)
  ]

  Created-settled :
      (payload : ItemCreate) (request_id : Option String) (before : Tables) (u : W)
      (item : DemoItem) (r : Outcome DbError ℕ)
      → ((n : ℕ) → r ≡ ok n → Created payload request_id before (saved u))
      → (settled db payload.name r u).0 ≡ ok item
      → Created payload request_id before (saved (settled db payload.name r u).1)
  unfolding settled
  Created-settled payload request_id before u item (ok n) made h =
      subst (Created payload request_id before) (sym ((laws.refresh_saved n).at u)) (made n refl)
  Created-settled payload request_id before u item (raised integrity_error) made h =
      let (e, off) = conflict-raises payload.name u (ok item) h in absurd (ok-apart off)
  Created-settled payload request_id before u item (raised (exception x)) made h =
      absurd (ok-apart (sym h))

  -- Where a creation returns, what is committed is what was pending, one item under the name that
  -- was asked for, and one event that names this item.
  pub create_item_atomic :
      (payload : ItemCreate) (request_id : Option String) (w : W) (item : DemoItem)
      → (create_item db payload request_id w).0 ≡ ok item
      → Created payload request_id (pending w) (saved (create_item db payload request_id w).1)
  unfolding create_item
  create_item_atomic payload request_id w item h =
      Created-settled payload request_id (pending w) (transaction db payload request_id w).1 item
        (transaction db payload request_id w).0 (transaction-Created payload request_id w) h

  transaction-refused :
      (payload : ItemCreate) (request_id : Option String) (w : W)
      → (transaction db payload request_id w).0 ≡ raised integrity_error
      → saved (transaction db payload request_id w).1 ≡ saved w
  transaction-refused payload request_id w h =
      elim (Outcome-cases (db.insert_item payload.name payload.description w).0) [
        | inr (e, i) ↦ rw i ((laws.insert_item_saved payload.name payload.description).at w)
        | inl (item, i) ↦
            let v = (db.insert_item payload.name payload.description w).1 in
            let event = item_created_event item.id item.name item.created_at request_id in
            let kept =
              (laws.insert_event_saved "item.created" event).at v
              ∙ (laws.insert_item_saved payload.name payload.description).at w in
            elim (Outcome-cases (db.insert_event "item.created" event v).0) [
              | inr (e, j) ↦ rw (i, j) kept
              | inl (done, j) ↦
                  let u = (db.insert_event "item.created" event v).1 in
                  elim (Outcome-cases (db.commit u).0) [
                    | inr (e, c) ↦
                        rw (i, j, c)
                          (laws.commit_refused u
                              (c ∙ ap raised (raised-injective (rw (i, j, c) at h)))
                            ∙ kept)
                    | inl (over, c) ↦ cc (rw (i, j, c) at h)
                  ]
            ]
      ]

  http-settled :
      (name : String) (u : W) (status : ℕ) (detail : String) (r : Outcome DbError ℕ)
      → (settled db name r u).0 ≡ raised (http status detail)
      → (r ≡ raised integrity_error) × (status ≡ 409)
  unfolding settled
  http-settled name u status detail (ok n) h = elim (Outcome-cases (db.refresh n u).0) [
    | inl (item, e) ↦ cc (rw e at h)
    | inr (x, e) ↦ cc (raised-injective (rw e at h))
  ]
  http-settled name u status detail (raised integrity_error) h =
      elim (Outcome-cases (db.rollback u).0) [
        | inl (done, e) ↦ (refl, cc (raised-injective (rw (e, settled) at h)))
        | inr (x, e) ↦ cc (raised-injective (rw (e, settled) at h))
      ]
  http-settled name u status detail (raised (exception x)) h = cc (raised-injective h)

  -- Where a creation raises an HTTPException, its status is 409 and what is committed is as
  -- before.
  pub create_item_refused :
      (payload : ItemCreate) (request_id : Option String) (w : W) (status : ℕ) (detail : String)
      → (create_item db payload request_id w).0 ≡ raised (http status detail)
      → (status ≡ 409) × (saved (create_item db payload request_id w).1 ≡ saved w)
  unfolding create_item
  create_item_refused payload request_id w status detail h =
      let u = (transaction db payload request_id w).1 in
      let r = (transaction db payload request_id w).0 in
      let (conflict, code) = http-settled payload.name u status detail r h in
      (
        code,
        (settled-saved payload.name r).at u ∙ transaction-refused payload request_id w conflict,
      )
