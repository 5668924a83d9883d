-- ===== src/Control/Laws.antt =====
-- What a client of the control store relies on: `table` is what the store holds in a world, by key.
use aws_devops_sdet_demo.Prelude.{
  ℕ, ◌<◌, ℤ, pos, ◌+ℤ◌, ◌<ℤ◌, ◌≤ℤ◌, leb_ℤ, ltb_ℤ, String, ◌+++◌, ◌≡◌, ◌≢◌, Bool, true, false,
  Option, none, some, [], ◌∷◌, Scalar, string, number, Item, lookup, ok, raised,
}
use aws_devops_sdet_demo.Control.Interface.{cap_reached, lock_held, ControlStore}

abbrev pub Table : Type 0
Table = String → Option Item

abbrev pub lock_key : String
lock_key = "lock"

abbrev pub nonce_key : String → String
nonce_key nonce = "nonce#" +++ nonce

abbrev pub count_key : String → String
count_key day = "count#" +++ day

-- A nonce that is there and has not run out.
abbrev pub later : Option Scalar → ℕ → Bool
later (some (number ttl)) now = ltb_ℤ (pos now) ttl
later _ now = false

abbrev pub is_alive : Option Item → ℕ → Bool
is_alive none now = false
is_alive (some item) now = later (lookup "ttl" item) now

-- A lock that another launch may take: none, or one past its deadline.
abbrev pub ended : Option Scalar → ℕ → Bool
ended (some (number deadline)) now = leb_ℤ deadline (pos now)
ended _ now = false

abbrev pub is_free : Option Item → ℕ → Bool
is_free none now = true
is_free (some item) now = ended (lookup "expires_at" item) now

abbrev pub lock_item : String → ℕ → ℕ → Item
lock_item launch_id expires_at now =
    ("pk", string lock_key)
    ∷ ("launch_id", string launch_id)
    ∷ ("acquired_at", number (pos now))
    ∷ ("expires_at", number (pos expires_at))
    ∷ []

abbrev pub sweep_key : String
sweep_key = "watchdog"

-- The watchdog's record, as it is noted at an instant.
abbrev pub sweep_item : String → ℕ → ℕ → Item
sweep_item scope dispatched_at ttl =
    ("pk", string sweep_key)
    ∷ ("scope", string scope)
    ∷ ("dispatched_at", number (pos dispatched_at))
    ∷ ("ttl", number (pos ttl))
    ∷ []

-- The launches that a day's counter shows; a missing one shows none.
abbrev pub shown : Option Scalar → ℤ
shown (some (number n)) = n
shown _ = pos 0

abbrev pub tally : Option Item → Option Scalar
tally none = none
tally (some item) = lookup "n" item

abbrev pub counter : Option Item → ℤ
counter item = shown (tally item)

pub record StoreLaws {W : Type 0} (store : ControlStore W) (table : W → Table) : Type 0 where
  -- reading
  pub get_flag_reads :
      (key : String) (w : W) (found : Option Item)
      → (store.get_flag key w).0 ≡ ok found
      → found ≡ table w key
  pub get_flag_keeps :
      (key : String) (w : W) (j : String) → table (store.get_flag key w).1 j ≡ table w j
  -- a nonce
  pub redeem_keeps :
      (nonce : String) (now : ℕ) (w : W) (j : String)
      → nonce_key nonce ≢ j
      → table (store.redeem_nonce nonce now w).1 j ≡ table w j
  pub redeem_spends :
      (nonce : String) (now : ℕ) (w : W)
      → (store.redeem_nonce nonce now w).0 ≡ ok true
      → (is_alive (table w (nonce_key nonce)) now ≡ true)
        × (table (store.redeem_nonce nonce now w).1 (nonce_key nonce) ≡ none)
  -- the lock
  pub lock_keeps :
      (launch_id : String) (expires_at now : ℕ) (w : W) (j : String)
      → lock_key ≢ j
      → table (store.take_lock launch_id expires_at now w).1 j ≡ table w j
  pub lock_taken :
      (launch_id : String) (expires_at now : ℕ) (w : W)
      → (store.take_lock launch_id expires_at now w).0 ≡ ok tt
      → (is_free (table w lock_key) now ≡ true)
        × (table (store.take_lock launch_id expires_at now w).1 lock_key
            ≡ some (lock_item launch_id expires_at now))
  pub lock_refused :
      (launch_id : String) (expires_at now : ℕ) (w : W) (holder : Item)
      → (store.take_lock launch_id expires_at now w).0 ≡ raised (lock_held holder)
      → (is_free (table w lock_key) now ≡ false)
        × (table (store.take_lock launch_id expires_at now w).1 lock_key ≡ table w lock_key)
  pub release_keeps :
      (w : W) (j : String) → lock_key ≢ j → table (store.release_lock w).1 j ≡ table w j
  pub release_frees :
      (w : W) → (store.release_lock w).0 ≡ ok tt → table (store.release_lock w).1 lock_key ≡ none
  -- the counter
  pub increment_keeps :
      (day : String) (cap : ℕ) (w : W) (j : String)
      → count_key day ≢ j
      → table (store.increment_day day cap w).1 j ≡ table w j
  pub increment_counts :
      (day : String) (cap : ℕ) (w : W) (n : ℤ)
      → (store.increment_day day cap w).0 ≡ ok n
      → (0 < cap → counter (table w (count_key day)) <ℤ pos cap)
        × (n ≡ counter (table w (count_key day)) +ℤ pos 1)
        × (counter (table (store.increment_day day cap w).1 (count_key day)) ≡ n)
  pub increment_refused :
      (day : String) (cap : ℕ) (w : W) (d : String)
      → (store.increment_day day cap w).0 ≡ raised (cap_reached d)
      → ((m : ℤ) → tally (table w (count_key day)) ≡ some (number m) → pos cap ≤ℤ m)
        × (table (store.increment_day day cap w).1 (count_key day) ≡ table w (count_key day))

-- The same of the calls that the watchdog makes.
pub record RecordLaws {W : Type 0} (store : ControlStore W) (table : W → Table) : Type 0 where
  pub read_lock_reads :
      (w : W) (found : Option Item) → (store.read_lock w).0 ≡ ok found → found ≡ table w lock_key
  pub read_lock_keeps : (w : W) (j : String) → table (store.read_lock w).1 j ≡ table w j
  pub read_sweep_reads :
      (w : W) (found : Option Item) → (store.read_sweep w).0 ≡ ok found → found ≡ table w sweep_key
  pub read_sweep_keeps : (w : W) (j : String) → table (store.read_sweep w).1 j ≡ table w j
  pub note_keeps :
      (scope : String) (at ttl : ℕ) (w : W) (j : String)
      → sweep_key ≢ j
      → table (store.note_sweep scope at ttl w).1 j ≡ table w j
  pub note_written :
      (scope : String) (at ttl : ℕ) (w : W)
      → (store.note_sweep scope at ttl w).0 ≡ ok tt
      → table (store.note_sweep scope at ttl w).1 sweep_key ≡ some (sweep_item scope at ttl)
  pub clear_keeps :
      (w : W) (j : String) → sweep_key ≢ j → table (store.clear_sweep w).1 j ≡ table w j
