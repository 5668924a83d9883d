-- ===== src/Store/Dynamodb.antt =====
-- store_dynamodb.py: `DynamoDbControlStore` over a client. Whatever is not the call's own conditional
-- check becomes `StoreUnavailable`.
use aws_devops_sdet_demo.Prelude.{
  ℕ, zero, suc, ℤ, pos, String, ◌+++◌, Bool, true, false, Option, none, some, [], ◌∷◌, string,
  number, boolean, Item, Exec, Outcome, ok, raised, pure, lift, attempt, reraise, ◌>>=◌, ◌==◌,
  if◌then◌else◌,
}
use aws_devops_sdet_demo.Control.Interface.{
  Error, store_unavailable, cap_reached, lock_held, exception, ControlStore,
}
use aws_devops_sdet_demo.Control.Laws.{lock_key, nonce_key, count_key, sweep_key}
use aws_devops_sdet_demo.Store.Client.{
  Attribute, S, N, bool_value, other, Row, always, attribute_exists, attribute_not_exists, greater,
  less, at_most, both, either, ClientError, client_error, other_error, conditional, Client,
  attribute,
}

-- `s[:n]`
pub prefix : ℕ → String → String
prefix zero s = ""
prefix (suc n) String.[] = ""
prefix (suc n) (String.◌∷◌ c s) = String.◌∷◌ c (prefix n s)

abbrev plain_entry : String × Attribute → Item → Item
plain_entry (key, S s) rest = (key, string s) ∷ rest
plain_entry (key, N n) rest = (key, number n) ∷ rest
plain_entry (key, bool_value b) rest = (key, boolean b) ∷ rest
plain_entry (key, other) rest = rest

abbrev pub plain_row : Row → Item
plain_row [] = []
plain_row (entry ∷ row) = plain_entry entry (plain_row row)

-- `_plain`: an item that is missing or empty is None.
abbrev pub plain : Option Row → Option Item
plain none = none
plain (some []) = none
plain (some (entry ∷ row)) = some (plain_row (entry ∷ row))

abbrev pub is_conditional : ClientError → Bool
is_conditional (client_error code item) = code == conditional
is_conditional (other_error name) = false

-- `exc.response.get("Item")`
abbrev pub old_item : ClientError → Option Row
old_item (client_error code item) = item
old_item (other_error name) = none

-- `LockHeld(...)`: the holder is `holder or {}`.
abbrev pub holder_of : Option Item → Item
holder_of none = []
holder_of (some item) = item

-- `item["n"]["N"]` of a counter, read as an int; the KeyError at another type is not caught.
abbrev pub read_count : Option Attribute → Outcome Error ℤ
read_count none = ok (pos 0)
read_count (some (N n)) = ok n
read_count _ = raised (exception "KeyError")

-- The key is right, and the condition is not met or something else went wrong.
abbrev pub failed : String → Error → ClientError → Error
failed name refusal e = if is_conditional e then refusal else store_unavailable name

-- `read_day` catches ClientError alone.
abbrev read_failed : ClientError → Error
read_failed (client_error code item) = store_unavailable "read_day"
read_failed (other_error name) = exception name

abbrev pub redemption : Outcome ClientError (Unit {0}) → Outcome Error Bool
redemption (ok _) = ok true
redemption (raised e) =
    if is_conditional e then ok false else raised (store_unavailable "redeem_nonce")

module _ {W : Type 0} (client : Client W) where
  unfoldable pub get_flag : String → Exec W Error (Option Item)
  get_flag key = do
    item ← reraise (λ _. store_unavailable ("get_flag(" +++ (key +++ ")"))) (client.get_item key)
    pure (plain item)

  unfoldable pub issue_nonce : String → ℕ → Exec W Error (Unit {0})
  issue_nonce nonce expires_at =
      reraise (λ _. store_unavailable "issue_nonce")
        (client.put_item (nonce_key nonce) (("ttl", N (pos expires_at)) ∷ []) always)

  unfoldable pub redeem_nonce : String → ℕ → Exec W Error Bool
  redeem_nonce nonce now = if nonce == "" then pure false else do
    r ← attempt (
        client.delete_item (nonce_key nonce)
          (both (attribute_exists "pk") (greater "ttl" (pos now))))
    lift (redemption r)

  unfoldable pub take_lock : String → ℕ → ℕ → Exec W Error (Unit {0})
  take_lock launch_id expires_at now =
      reraise (λ e. failed "take_lock" (lock_held (holder_of (plain (old_item e)))) e)
        (client.put_item lock_key
          (("launch_id", S launch_id)
            ∷ ("acquired_at", N (pos now))
            ∷ ("expires_at", N (pos expires_at))
            ∷ [])
          (either (attribute_not_exists "pk") (at_most "expires_at" (pos now))))

  unfoldable pub read_lock : Exec W Error (Option Item)
  read_lock = do
    item ← reraise (λ _. store_unavailable "read_lock") (client.get_item lock_key)
    pure (plain item)

  unfoldable pub release_lock : Exec W Error (Unit {0})
  release_lock =
      reraise (λ _. store_unavailable "release_lock") (client.delete_item lock_key always)

  unfoldable pub read_sweep : Exec W Error (Option Item)
  read_sweep = do
    item ← reraise (λ _. store_unavailable "read_sweep") (client.get_item sweep_key)
    pure (plain item)

  unfoldable pub note_sweep : String → ℕ → ℕ → Exec W Error (Unit {0})
  note_sweep scope dispatched_at ttl =
      reraise (λ _. store_unavailable "note_sweep")
        (client.put_item sweep_key
          (("scope", S scope)
            ∷ ("dispatched_at", N (pos dispatched_at))
            ∷ ("ttl", N (pos ttl))
            ∷ [])
          always)

  unfoldable pub clear_sweep : Exec W Error (Unit {0})
  clear_sweep = reraise (λ _. store_unavailable "clear_sweep") (client.delete_item sweep_key always)

  unfoldable pub read_day : String → Exec W Error ℤ
  read_day day = do
    item ← reraise read_failed (client.get_item (count_key day))
    lift (read_count (attribute "n" item))

  unfoldable pub increment_day : String → ℕ → Exec W Error ℤ
  increment_day day cap = reraise (failed "increment_day" (cap_reached day)) (
      client.update_item (count_key day) "n" (pos 0) (pos 1)
        (either (attribute_not_exists "n") (less "n" (pos cap))))

  -- Not part of the interface: the budget alarm's own write.
  unfoldable pub engage_kill_switch : String → ℕ → String → Exec W Error (Unit {0})
  unfolding prefix
  engage_kill_switch reason now source =
      reraise (λ _. store_unavailable "engage_kill_switch")
        (client.put_item "killswitch"
          (("engaged", bool_value true)
            ∷ ("engaged_at", N (pos now))
            ∷ ("source", S source)
            ∷ ("reason", S (prefix 1000 reason))
            ∷ [])
          always)

  abbrev pub dynamodb_control_store : ControlStore W
  dynamodb_control_store = record {
    get_flag = get_flag;
    redeem_nonce = redeem_nonce;
    issue_nonce = issue_nonce;
    take_lock = take_lock;
    read_lock = read_lock;
    release_lock = release_lock;
    increment_day = increment_day;
    read_day = read_day;
    read_sweep = read_sweep;
    note_sweep = note_sweep;
    clear_sweep = clear_sweep;
  }
