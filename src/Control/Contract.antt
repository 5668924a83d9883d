-- ===== src/Control/Contract.antt =====
-- The whole contract of `ControlStore`: what each of its methods does to the items and answers of them,
-- and the exceptions it raises. `table` is what the store holds in a world, by key.
use aws_devops_sdet_demo.Prelude.{ℕ, ◌<◌, ℤ, String, ◌≡◌, ◌≢◌, ◌⊎◌, true, none, Item, ok, raised}
use aws_devops_sdet_demo.Control.Interface.{
  Error, store_unavailable, cap_reached, lock_held, ControlStore,
}
use aws_devops_sdet_demo.Control.Laws.{
  Table, StoreLaws, RecordLaws, nonce_key, count_key, sweep_key, is_alive, counter,
}

abbrev pub IsUnavailable : Error → Type 0
IsUnavailable e = (operation : String) × (e ≡ store_unavailable operation)

-- "Every method raises `StoreUnavailable` when the underlying call fails for any reason other than its
-- own conditional check", of every method but `read_day`.
pub record FailureLaws {W : Type 0} (store : ControlStore W) : Type 0 where
  pub get_flag_fails :
      (key : String) (w : W) (e : Error) → (store.get_flag key w).0 ≡ raised e → IsUnavailable e
  pub redeem_fails :
      (nonce : String) (now : ℕ) (w : W) (e : Error)
      → (store.redeem_nonce nonce now w).0 ≡ raised e
      → IsUnavailable e
  pub issue_fails :
      (nonce : String) (expires_at : ℕ) (w : W) (e : Error)
      → (store.issue_nonce nonce expires_at w).0 ≡ raised e
      → IsUnavailable e
  pub take_lock_fails :
      (launch_id : String) (expires_at now : ℕ) (w : W) (e : Error)
      → (store.take_lock launch_id expires_at now w).0 ≡ raised e
      → IsUnavailable e ⊎ ((holder : Item) × (e ≡ lock_held holder))
  pub read_lock_fails : (w : W) (e : Error) → (store.read_lock w).0 ≡ raised e → IsUnavailable e
  pub release_fails : (w : W) (e : Error) → (store.release_lock w).0 ≡ raised e → IsUnavailable e
  pub increment_fails :
      (day : String) (cap : ℕ) (w : W) (e : Error)
      → (store.increment_day day cap w).0 ≡ raised e
      → IsUnavailable e ⊎ (e ≡ cap_reached day)
  pub read_sweep_fails : (w : W) (e : Error) → (store.read_sweep w).0 ≡ raised e → IsUnavailable e
  pub note_fails :
      (scope : String) (at ttl : ℕ) (w : W) (e : Error)
      → (store.note_sweep scope at ttl w).0 ≡ raised e
      → IsUnavailable e
  pub clear_fails : (w : W) (e : Error) → (store.clear_sweep w).0 ≡ raised e → IsUnavailable e

pub record StoreContract {W : Type 0} (store : ControlStore W) (table : W → Table) : Type 0 where
  pub launches : StoreLaws store table
  pub sweeps : RecordLaws store table
  pub failures : FailureLaws store
  -- a nonce that was issued is alive until it runs out
  pub issue_keeps :
      (nonce : String) (expires_at : ℕ) (w : W) (j : String)
      → nonce_key nonce ≢ j
      → table (store.issue_nonce nonce expires_at w).1 j ≡ table w j
  pub issued :
      (nonce : String) (expires_at now : ℕ) (w : W)
      → (store.issue_nonce nonce expires_at w).0 ≡ ok tt
      → now < expires_at
      → is_alive (table (store.issue_nonce nonce expires_at w).1 (nonce_key nonce)) now ≡ true
  -- the record of the watchdog is gone once it is cleared
  pub cleared :
      (w : W) → (store.clear_sweep w).0 ≡ ok tt → table (store.clear_sweep w).1 sweep_key ≡ none
  -- the day's counter, as a client reads it
  pub read_day_reads :
      (day : String) (w : W) (n : ℤ)
      → (store.read_day day w).0 ≡ ok n
      → n ≡ counter (table w (count_key day))
  pub read_day_keeps :
      (day : String) (w : W) (j : String) → table (store.read_day day w).1 j ≡ table w j
