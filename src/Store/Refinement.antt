-- ===== src/Store/Refinement.antt =====
-- On the methods of store_dynamodb.py that a launch calls: the laws that a launch relies on.
use aws_devops_sdet_demo.Prelude.{
  ℕ, ◌<◌, ℤ, pos, ◌+ℤ◌, ◌<ℤ◌, ◌≤ℤ◌, String, ◌≡◌, ◌≢◌, refl, sym, ap, ◌∙◌, inl, inr, true, false,
  Option, none, some, number, Item, Outcome, ok, raised, relabel, relabel-ok, arith, Bool-cases,
  Outcome-cases, ok-injective, raised-injective, ◌==◌, eq_iff, false≢true,
}
use aws_devops_sdet_demo.Control.Interface.{Error, store_unavailable, cap_reached, lock_held}
use aws_devops_sdet_demo.Control.Laws.{
  StoreLaws, lock_key, nonce_key, count_key, is_alive, is_free, lock_item, counter, tally,
}
use aws_devops_sdet_demo.Store.Client.{
  Row, always, ClientError, client_error, other_error, conditional, Client, ClientLaws, attribute,
}
use aws_devops_sdet_demo.Store.Dynamodb.{
  redemption, plain, dynamodb_control_store, get_flag, redeem_nonce, take_lock, release_lock,
  increment_day, failed,
}
use aws_devops_sdet_demo.Store.Plain.{
  alive_condition, IsFormed, count_in, is_alive-plain, is_free-plain, tally-plain, counter-plain,
  below_cap, at_cap, starting_count, items,
}

-- A refusal that is no `StoreUnavailable` comes of a condition that failed.
refused :
    {A : Type 0} (name : String) (refusal : ClientError → Error) (r : Outcome ClientError A)
    → (e : Error) → ((s : String) → e ≢ store_unavailable s)
    → relabel (λ x. failed name (refusal x) x) r ≡ raised e
    → (old : Option Row) × (r ≡ raised (client_error conditional old))
refused name refusal (ok a) e n h = cc
refused name refusal (raised (other_error x)) e n h = absurd (n name (ground arith))
refused name refusal (raised (client_error code old)) e n h =
    elim (Bool-cases (code == conditional)) [
      | inl same ↦ (old, ap (λ c. raised (client_error c old)) ((eq_iff code conditional).0 same))
      | inr differs ↦ absurd (n name (sym (raised-injective (rw differs at h))))
    ]

module _ {W : Type 0} (client : Client W) (rows : W → String → Option Row)
    (laws : ClientLaws client rows) where
  IsFormed-at : (w : W) (k : String) → IsFormed k (rows w k)
  IsFormed-at w k r e = laws.formed w k r e

  get_flag-reads :
      (key : String) (w : W) (found : Option Item)
      → (get_flag client key w).0 ≡ ok found
      → found ≡ items rows w key
  unfolding get_flag
  get_flag-reads key w found h = elim (Outcome-cases (client.get_item key w).0) [
    | inl (row, e) ↦
        ok-injective (sym (rw (e, get_flag) at h)) ∙ ap plain (laws.get_reads key w row e)
    | inr (x, e) ↦ cc (rw (e, get_flag) at h)
  ]

  get_flag-keeps :
      (key : String) (w : W) (j : String) → items rows (get_flag client key w).1 j ≡ items rows w j
  unfolding get_flag
  get_flag-keeps key w j = elim (Outcome-cases (client.get_item key w).0) [
    | inl (row, e) ↦ rw (e, get_flag) (ap plain (laws.get_keeps key w j))
    | inr (x, e) ↦ rw (e, get_flag) (ap plain (laws.get_keeps key w j))
  ]

  redeem-keeps :
      (nonce : String) (now : ℕ) (w : W) (j : String)
      → nonce_key nonce ≢ j
      → items rows (redeem_nonce client nonce now w).1 j ≡ items rows w j
  unfolding redeem_nonce
  redeem-keeps nonce now w j h = elim (Bool-cases (nonce == "")) [
    | inl e ↦ rw (e, redeem_nonce) refl
    | inr e ↦
        rw (e, redeem_nonce)
          (ap plain (laws.delete_keeps (nonce_key nonce) (alive_condition now) w j h))
  ]

  redemption-true : (r : Outcome ClientError (Unit {0})) → redemption r ≡ ok true → r ≡ ok tt
  redemption-true (ok tt) h = refl
  redemption-true (raised e) h = ground arith

  redeem-spends :
      (nonce : String) (now : ℕ) (w : W)
      → (redeem_nonce client nonce now w).0 ≡ ok true
      → (is_alive (items rows w (nonce_key nonce)) now ≡ true)
        × (items rows (redeem_nonce client nonce now w).1 (nonce_key nonce) ≡ none)
  unfolding redeem_nonce
  redeem-spends nonce now w h = elim (Bool-cases (nonce == "")) [
    | inl e ↦ absurd (false≢true (ok-injective (rw (e, redeem_nonce) at h)))
    | inr e ↦
        let k = nonce_key nonce in
        let done =
          laws.delete_done k (alive_condition now) w
            (redemption-true _ (rw (e, redeem_nonce) at h)) in
        (
          is_alive-plain k (rows w k) now (IsFormed-at w k) ∙ done.0,
          rw (e, redeem_nonce) (ap plain done.1),
        )
  ]

  lock-taken :
      (launch_id : String) (expires_at now : ℕ) (w : W)
      → (take_lock client launch_id expires_at now w).0 ≡ ok tt
      → (is_free (items rows w lock_key) now ≡ true)
        × (items rows (take_lock client launch_id expires_at now w).1 lock_key
            ≡ some (lock_item launch_id expires_at now))
  unfolding take_lock
  lock-taken launch_id expires_at now w h =
      let done = laws.put_done _ _ _ w (relabel-ok _ _ tt h) in
      (
        is_free-plain lock_key (rows w lock_key) now (IsFormed-at w lock_key) ∙ done.0,
        ap plain done.1,
      )

  lock-refused :
      (launch_id : String) (expires_at now : ℕ) (w : W) (holder : Item)
      → (take_lock client launch_id expires_at now w).0 ≡ raised (lock_held holder)
      → (is_free (items rows w lock_key) now ≡ false)
        × (items rows (take_lock client launch_id expires_at now w).1 lock_key
            ≡ items rows w lock_key)
  unfolding take_lock
  lock-refused launch_id expires_at now w holder h =
      let (old, e) = refused "take_lock" _ _ (lock_held holder) (λ s q. cc q) h in
      let kept = laws.put_refused _ _ _ w old e in
      (
        is_free-plain lock_key (rows w lock_key) now (IsFormed-at w lock_key) ∙ kept.0,
        ap plain kept.1,
      )

  increment-counts :
      (day : String) (cap : ℕ) (w : W) (n : ℤ)
      → (increment_day client day cap w).0 ≡ ok n
      → (0 < cap → counter (items rows w (count_key day)) <ℤ pos cap)
        × (n ≡ counter (items rows w (count_key day)) +ℤ pos 1)
        × (counter (items rows (increment_day client day cap w).1 (count_key day)) ≡ n)
  unfolding increment_day
  increment-counts day cap w n h =
      let k = count_key day in
      let done = laws.update_done k "n" (pos 0) (pos 1) _ w n (relabel-ok _ _ n h) in
      let before = counter-plain k (rows w k) (IsFormed-at w k) in
      let u = (increment_day client day cap w).1 in
      (
        λ p. rw before (below_cap (attribute "n" (rows w k)) cap done.0 p),
        done.1.2
            ∙ ap (λ m. m +ℤ pos 1)
                (starting_count (attribute "n" (rows w k)) done.1.0 done.1.1 ∙ sym before),
        counter-plain k (rows u k) (IsFormed-at u k) ∙ ap count_in done.2,
      )

  increment-refused :
      (day : String) (cap : ℕ) (w : W) (d : String)
      → (increment_day client day cap w).0 ≡ raised (cap_reached d)
      → ((m : ℤ) → tally (items rows w (count_key day)) ≡ some (number m) → pos cap ≤ℤ m)
        × (items rows (increment_day client day cap w).1 (count_key day)
            ≡ items rows w (count_key day))
  unfolding increment_day
  increment-refused day cap w d h =
      let k = count_key day in
      let (old, e) = refused "increment_day" _ _ (cap_reached d) (λ s q. cc q) h in
      let kept = laws.update_refused k "n" (pos 0) (pos 1) _ w old e in
      (
        λ m t.
            at_cap (attribute "n" (rows w k)) cap m kept.0
              (sym (tally-plain k (rows w k) (IsFormed-at w k)) ∙ t),
        ap plain kept.1,
      )

  pub dynamodb-StoreLaws : StoreLaws (dynamodb_control_store client) (items rows)
  unfolding take_lock release_lock increment_day
  dynamodb-StoreLaws = record {
    get_flag_reads = get_flag-reads;
    get_flag_keeps = get_flag-keeps;
    redeem_keeps = redeem-keeps;
    redeem_spends = redeem-spends;
    lock_keeps = λ launch_id expires_at now w j h. ap plain (laws.put_keeps lock_key _ _ w j h);
    lock_taken = lock-taken;
    lock_refused = lock-refused;
    release_keeps = λ w j h. ap plain (laws.delete_keeps lock_key always w j h);
    release_frees = λ w h. ap plain (laws.delete_done lock_key always w (relabel-ok _ _ tt h)).1;
    increment_keeps = λ day cap w j h. ap plain (laws.update_keeps (count_key day) _ _ _ _ w j h);
    increment_counts = increment-counts;
    increment_refused = increment-refused;
  }
