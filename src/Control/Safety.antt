-- ===== src/Control/Safety.antt =====
-- What an allowed press means for the items of the control store.
use aws_devops_sdet_demo.Prelude.{
  ℕ, zero, suc, refl, ◌⊎◌, inl, inr, arith, ◌<◌, pos, ◌+ℤ◌, ◌<ℤ◌, String, ◌≡◌, ◌≢◌, sym, ap, ◌∙◌,
  true, false, none, some, List, [], Exec, ok,
}
use aws_devops_sdet_demo.Control.Interface.{Error, ControlStore}
use aws_devops_sdet_demo.Control.Quota.{ZoneInfo, quota_day}
use aws_devops_sdet_demo.Control.Laws.{
  Table, StoreLaws, lock_key, nonce_key, count_key, is_alive, is_free, lock_item, counter,
}
use aws_devops_sdet_demo.Control.Keys.{
  nonce-ne-count, nonce-ne-lock, lock-ne-count, lock-ne-nonce, count-ne-lock,
}
use aws_devops_sdet_demo.Control.Decide.{
  Press, Run, deadline_of, is_launch_id, kill_switch_key, decide_launch,
}
use aws_devops_sdet_demo.Control.Decide.Trace.{Allows, engaged, decide_launch-Launched}

zero_or : {P : Type 0} (n : ℕ) → (0 < n → P) → (n ≡ 0) ⊎ P
zero_or zero h = inl refl
zero_or (suc n) h = inr (h (ground arith))

-- From the items `before` to the items `after`, the press `p` passed the guardrails that the items and
-- the press show; the answer of GitHub on the runs in flight is no part of it.
pub record Passed (zone_info : ZoneInfo) (p : Press) (before after : Table) : Type 0 where
  pub named : is_launch_id p.launch_id ≡ true
  pub off : engaged (before kill_switch_key) ≡ false
  pub configured : p.configured ≡ true
  pub nonce_alive : is_alive (before (nonce_key p.nonce)) p.now ≡ true
  pub nonce_spent : after (nonce_key p.nonce) ≡ none
  pub lock_free : is_free (before lock_key) p.now ≡ true
  pub lock_held : after lock_key ≡ some (lock_item p.launch_id (deadline_of p) p.now)
  pub day : String
  pub today : quota_day zone_info p.now p.quota_timezone ≡ ok day
  pub under_cap : (p.daily_cap ≡ 0) ⊎ (counter (before (count_key day)) <ℤ pos p.daily_cap)
  pub counted : counter (after (count_key day)) ≡ counter (before (count_key day)) +ℤ pos 1

module _ {W : Type 0} (store : ControlStore W) (table : W → Table) (laws : StoreLaws store table)
    (zone_info : ZoneInfo) (in_flight : Exec W Error (List Run))
    (asks : (w : W) (j : String) → table (in_flight w).1 j ≡ table w j) where
  -- The world in which GitHub is asked.
  abbrev pub before_asking : Press → W → W
  before_asking p w = (store.redeem_nonce p.nonce p.now (store.get_flag kill_switch_key w).1).1

  -- Up to the lock only the nonce has changed.
  kept :
      (p : Press) (w : W) (j : String)
      → nonce_key p.nonce ≢ j
      → table (in_flight (before_asking p w)).1 j ≡ table w j
  kept p w j h =
      asks (before_asking p w) j
      ∙ laws.redeem_keeps p.nonce p.now (store.get_flag kill_switch_key w).1 j h
      ∙ laws.get_flag_keeps kill_switch_key w j

  -- An allowed press had an id of the right shape, found the kill switch off and the path configured,
  -- spent a nonce that was there and had not run out, found no run in flight, took a lock that was
  -- free or past its deadline, and counted a launch of the day below
  -- the cap, where the cap is positive. The store then holds
  -- the lock in its name to its deadline and a counter one higher, and the nonce no more. This asks
  -- of the store the laws of its contract on these calls, and of the question to GitHub that it
  -- leaves the store alone.
  pub decide_launch_passes :
      (p : Press) (w v : W)
      → Allows store zone_info in_flight p (decide_launch store zone_info in_flight p w) v
      → Passed zone_info p (table w) (table v) × ((in_flight (before_asking p w)).0 ≡ ok [])
  decide_launch_passes p w v h =
      let l = decide_launch-Launched store zone_info in_flight p w v h in
      let asked = l.rest.rest in
      let c = asked.rest.rest in
      let ua = before_asking p w in
      let ul = (in_flight ua).1 in
      let uc = (store.take_lock p.launch_id (deadline_of p) p.now ul).1 in
      let spent =
        laws.redeem_spends p.nonce p.now (store.get_flag kill_switch_key w).1 l.rest.redeemed in
      let taken = laws.lock_taken p.launch_id (deadline_of p) p.now ul asked.rest.taken in
      let counts = laws.increment_counts c.day p.daily_cap uc c.n c.incremented in
      let count_kept =
        laws.lock_keeps p.launch_id (deadline_of p) p.now ul (count_key c.day) (lock-ne-count c.day)
        ∙ kept p w (count_key c.day) (nonce-ne-count p.nonce c.day) in
      let nonce_kept =
        laws.increment_keeps c.day p.daily_cap uc (nonce_key p.nonce)
          (λ e. nonce-ne-count p.nonce c.day (sym e))
        ∙ laws.lock_keeps p.launch_id (deadline_of p) p.now ul (nonce_key p.nonce)
            (lock-ne-nonce p.nonce)
        ∙ asks ua (nonce_key p.nonce) in
      (
        record {
          named = l.named;
          off = rw (← laws.get_flag_reads kill_switch_key w l.flag l.flag_read) l.off;
          configured = l.configured;
          nonce_alive = rw (laws.get_flag_keeps kill_switch_key w (nonce_key p.nonce)) at spent.0;
          nonce_spent = ap (λ u. table u (nonce_key p.nonce)) c.last ∙ nonce_kept ∙ spent.1;
          lock_free = rw (kept p w lock_key (nonce-ne-lock p.nonce)) at taken.0;
          lock_held =
              ap (λ u. table u lock_key) c.last
              ∙ laws.increment_keeps c.day p.daily_cap uc lock_key (count-ne-lock c.day)
              ∙ taken.1;
          day = c.day;
          today = c.today;
          under_cap = zero_or p.daily_cap (λ h. rw count_kept at (counts.0 h));
          counted =
              ap (λ u. counter (table u (count_key c.day))) c.last
              ∙ counts.2
              ∙ counts.1
              ∙ ap (λ i. counter i +ℤ pos 1) count_kept;
        },
        asked.idle,
      )
