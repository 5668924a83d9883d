-- ===== src/Messages/Contract.antt =====
-- On the two parsers and the two builders of messages.
use aws_devops_sdet_demo.Prelude.{
  ℕ, zero, suc, ◌<◌, pos, negsuc, String, ◌≡◌, refl, sym, ap, ◌∙◌, inl, inr, true, false, Option,
  none, some, Value, null, int, str, bool, real, array, object, Fields, get, Outcome, ok, raised,
  ◌==◌, Bool-cases, eq_iff, ok-injective, arith, subst,
}
use aws_devops_sdet_demo.Messages.{
  Poison, equals_str, equals_int, item_id_of, text_of, or_dash, item_id_read, item_read, event_read,
  created_read, processed_read, report_read, parse_item_created, parse_item_processed,
  item_created_event, item_processed_event, item_created_message, item_processed_message,
}

-- `body` follows the contract of `event_type`: `event` are its fields and `n` is its item.
pub record Follows (event_type : String) (v : Option Value) (event : Fields) (n : ℕ) : Type 0 where
  pub an_object : v ≡ some (object event)
  pub typed : get "type" event ≡ str event_type
  pub versioned : equals_int (pos 1) (get "version" event) ≡ true
  pub item : Fields
  pub an_item : get "item" event ≡ object item
  pub an_id : get "id" item ≡ int (pos n)
  pub positive : 0 < n

equals_str-str : (s : String) (v : Value) → equals_str s v ≡ true → v ≡ str s
equals_str-str s (str t) h = ap str ((eq_iff t s).0 h)
equals_str-str s null h = cc h
equals_str-str s (bool b) h = cc h
equals_str-str s (int n) h = cc h
equals_str-str s (real n) h = cc h
equals_str-str s (array n) h = cc h
equals_str-str s (object n) h = cc h

some-injective : {a b : ℕ} → some a ≡ some b → a ≡ b
some-injective h = cc

item_id_of-int : (v : Value) (n : ℕ) → item_id_of v ≡ some n → (v ≡ int (pos n)) × (0 < n)
unfolding item_id_of
item_id_of-int (int (pos (suc m))) n h =
    let e = some-injective h in (ap (λ k. int (pos k)) e, subst (λ k. 0 < k) e (ground arith))
item_id_of-int (int (pos zero)) n h = cc h
item_id_of-int (int (negsuc m)) n h = cc h
item_id_of-int null n h = cc h
item_id_of-int (bool b) n h = cc h
item_id_of-int (str s) n h = cc h
item_id_of-int (real r) n h = cc h
item_id_of-int (array r) n h = cc h
item_id_of-int (object r) n h = cc h

module _ (event_type : String) where
  item_id_read-int :
      (event e : Fields) (v : Value) (n : ℕ) (r : Option ℕ)
      → item_id_of v ≡ r
      → item_id_read event_type event v r ≡ ok (e, n)
      → (e ≡ event) × (v ≡ int (pos n)) × (0 < n)
  unfolding item_id_read
  item_id_read-int event e v n none i h = cc h
  item_id_read-int event e v n (some m) i h =
      let p = ok-injective h in
      let q = item_id_of-int v n (i ∙ ap (λ x. some x.1) p) in (ap (λ x. x.0) (sym p), q.0, q.1)

  item_read-item :
      (event e : Fields) (v : Value) (n : ℕ)
      → item_read event_type event v ≡ ok (e, n)
      → (e ≡ event)
        × ((item : Fields) × (v ≡ object item) × (get "id" item ≡ int (pos n)) × (0 < n))
  unfolding item_read
  item_read-item event e (object item) n h =
      let (same, i, p) = item_id_read-int event e (get "id" item) n _ refl h in
      (same, (item, refl, i, p))
  item_read-item event e null n h = cc h
  item_read-item event e (bool b) n h = cc h
  item_read-item event e (int b) n h = cc h
  item_read-item event e (real b) n h = cc h
  item_read-item event e (str b) n h = cc h
  item_read-item event e (array b) n h = cc h

  event_read-Follows :
      (v : Option Value) (e : Fields) (n : ℕ)
      → event_read event_type v ≡ ok (e, n)
      → Follows event_type v e n
  unfolding event_read
  event_read-Follows (some (object event)) e n h =
      elim (Bool-cases (equals_str event_type (get "type" event))) [
        | inr off ↦ cc (rw (off, event_read) at h)
        | inl t ↦ elim (Bool-cases (equals_int (pos 1) (get "version" event))) [
          | inr off ↦ cc (rw (t, off, event_read) at h)
          | inl v ↦
              let (same, (item, o, i, p)) =
                item_read-item event e (get "item" event) n (rw (t, v, event_read) at h) in
              rw same (record {
                an_object = refl;
                typed = equals_str-str _ _ t;
                versioned = v;
                item = item;
                an_item = o;
                an_id = i;
                positive = p;
              })
        ]
      ]
  event_read-Follows none e n h = cc h
  event_read-Follows (some null) e n h = cc h
  event_read-Follows (some (bool b)) e n h = cc h
  event_read-Follows (some (int b)) e n h = cc h
  event_read-Follows (some (real b)) e n h = cc h
  event_read-Follows (some (str b)) e n h = cc h
  event_read-Follows (some (array b)) e n h = cc h

module _ (loads : String → Option Value) where
  created_from :
      (v : Option Value) (r : Outcome Poison (Fields × ℕ)) (n : ℕ) (request_id : String)
      → event_read "item.created" v ≡ r
      → created_read r ≡ ok (n, request_id)
      → (event : Fields) × Follows "item.created" v event n
        × (request_id ≡ or_dash (text_of (get "request_id" event)))
  unfolding created_read
  created_from v (raised p) n request_id e h = cc h
  created_from v (ok (event, m)) n request_id e h =
      let p = ok-injective h in
      (
        event,
        event_read-Follows "item.created" v event n (e ∙ ap (λ x. ok (event, x.0)) p),
        ap (λ x. x.1) (sym p),
      )

  -- Whatever the worker's parser accepts is an object of the contract's type, at a version that
  -- Python finds equal to 1, whose item has a positive int for its id; the request is the event's
  -- where that is a text and not empty, and a dash otherwise.
  pub parse_item_created-Follows :
      (body : String) (n : ℕ) (request_id : String)
      → parse_item_created loads body ≡ ok (n, request_id)
      → (event : Fields) × Follows "item.created" (loads body) event n
        × (request_id ≡ or_dash (text_of (get "request_id" event)))
  unfolding parse_item_created
  parse_item_created-Follows body n request_id h = created_from (loads body) _ n request_id refl h

  dashed : (r : Option String) → or_dash (text_of (str (or_dash r))) ≡ or_dash r
  unfolding text_of
  dashed none = refl
  dashed (some s) = elim (Bool-cases (s == "")) [
    | inl bare ↦ rw bare refl
    | inr full ↦ rw full (rw full (rw full refl))
  ]

  dashed_text : (s : String) → text_of (str (or_dash (some s))) ≡ some (or_dash (some s))
  unfolding text_of
  dashed_text s = elim (Bool-cases (s == "")) [
    | inl bare ↦ rw bare refl
    | inr full ↦ rw (full, full) refl
  ]

  module _ (dumps : Value → String) where
    -- The worker's parser reads the item and the request off the event that the api builds, a dash
    -- where the api had no request: for a positive id, where json.loads gives back the event that
    -- json.dumps wrote.
    pub item_created_round_trip :
        (n : ℕ) (name created_at : String) (request_id : Option String)
        → 0 < n
        → loads (dumps (item_created_event n name created_at request_id))
          ≡ some (item_created_event n name created_at request_id)
        → parse_item_created loads (item_created_message dumps n name created_at request_id)
          ≡ ok (n, or_dash request_id)
    unfolding parse_item_created item_created_message item_created_event event_read item_read
        item_id_of item_id_read created_read
    item_created_round_trip zero name created_at request_id positive h = ground arith
    item_created_round_trip (suc n) name created_at request_id positive h =
        rw (parse_item_created, item_created_message, h)
          (ap (λ r. ok (suc n, r)) (dashed request_id))

    -- The api's parser reads every field off the report that the worker builds, and a dash where
    -- the worker had an empty request: for a positive id and a time and a name that are not empty,
    -- where json.loads gives back the report that json.dumps wrote.
    pub item_processed_round_trip :
        (n : ℕ) (at by request_id : String)
        → 0 < n
        → (at == "") ≡ false
        → (by == "") ≡ false
        → loads (dumps (item_processed_event n at by request_id))
          ≡ some (item_processed_event n at by request_id)
        → parse_item_processed loads (item_processed_message dumps n at by request_id)
          ≡ ok (record {
            item_id = n;
            processed_at = at;
            processed_by = by;
            request_id = some (or_dash (some request_id));
          })
    unfolding parse_item_processed item_processed_message item_processed_event event_read item_read
        item_id_of item_id_read processed_read report_read text_of
    item_processed_round_trip zero at by request_id positive a b h = ground arith
    item_processed_round_trip (suc n) at by request_id positive a b h =
        rw (parse_item_processed, item_processed_message, h)
          (rw (a, b)
            (ap
              (λ r.
                ok (record {
                  item_id = suc n;
                  processed_at = at;
                  processed_by = by;
                  request_id = r;
                }))
              (dashed_text request_id)))
