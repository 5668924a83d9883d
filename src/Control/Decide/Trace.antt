-- ===== src/Control/Decide/Trace.antt =====
-- What a press that is allowed has done: every call of `decide_launch` came back well, in order.
use aws_devops_sdet_demo.Prelude.{
  ℤ, String, ◌≡◌, refl, inl, inr, Bool, true, false, Option, none, some, List, [], ◌∷◌, Item,
  lookup, is_true, Exec, Outcome, ok, raised, arith, ◌>>=◌, false≢true, Bool-cases, Outcome-cases,
}
use aws_devops_sdet_demo.Control.Interface.{
  Error, store_unavailable, cap_reached, lock_held, exception, ControlStore, Decision,
}
use aws_devops_sdet_demo.Control.Quota.{ZoneInfo, quota_day}
use aws_devops_sdet_demo.Control.Decide.{
  Press, Run, deadline_of, is_launch_id, kill_switch_key, store_refusal, kill_switch_refusal,
  decide_launch, switch_read, switch_on, counted, limit_reached, count_launch, locked, lock_launch,
  asked, in_flight_checked, redeemed, nonce_checked, switch_checked,
}

abbrev pub engaged : Option Item → Bool
engaged none = false
engaged (some flag) = is_true (lookup "engaged" flag)

module _ {W : Type 0} (store : ControlStore W) (zone_info : ZoneInfo)
    (in_flight : Exec W Error (List Run)) (p : Press) where
  abbrev pub Allows : Outcome Error Decision × W → W → Type 0
  Allows (ok d, u) v = (d.allowed ≡ true) × (v ≡ u)
  Allows (raised _, u) v = ⊥

  -- 6. from `w` to `v`
  pub record Counted (w v : W) : Type 0 where
    pub day : String
    pub n : ℤ
    pub today : quota_day zone_info p.now p.quota_timezone ≡ ok day
    pub incremented : (store.increment_day day p.daily_cap w).0 ≡ ok n
    pub last : v ≡ (store.increment_day day p.daily_cap w).1

  limit-Allows : (w v : W) → Allows (limit_reached store zone_info in_flight p w) v → ⊥
  unfolding limit_reached
  limit-Allows w v h = ground arith

  counted-Allows :
      (r : Outcome Error ℤ) (w v : W)
      → Allows (counted store zone_info in_flight p r w) v
      → (n : ℤ) × (r ≡ ok n) × (v ≡ w)
  unfolding counted store_refusal
  counted-Allows (ok n) w v h = (n, refl, h.1)
  counted-Allows (raised (cap_reached day)) w v h = absurd (limit-Allows _ v h)
  counted-Allows (raised (store_unavailable op)) w v h = absurd (false≢true h.0)
  counted-Allows (raised (lock_held i)) w v h = absurd h
  counted-Allows (raised (exception e)) w v h = absurd h

  counted-raised :
      (e : Error) (w v : W) → Allows (counted store zone_info in_flight p (raised e) w) v → ⊥
  counted-raised e w v h = let (n, impossible, _) = counted-Allows (raised e) w v h in cc

  count-Allows : (w v : W) → Allows (count_launch store zone_info in_flight p w) v → Counted w v
  unfolding count_launch
  count-Allows w v h = elim (Outcome-cases (quota_day zone_info p.now p.quota_timezone)) [
    | inl (day, e) ↦
        let (n, counted, last) =
          counted-Allows (store.increment_day day p.daily_cap w).0
            (store.increment_day day p.daily_cap w).1 v (rw (e, count_launch) at h) in
        record { day = day; n = n; today = e; incremented = counted; last = last }
    | inr (x, e) ↦ absurd (counted-raised x w v (rw (e, count_launch) at h))
  ]

  -- 5.
  pub record Locked (w v : W) : Type 0 where
    pub taken : (store.take_lock p.launch_id (deadline_of p) p.now w).0 ≡ ok tt
    pub rest : Counted (store.take_lock p.launch_id (deadline_of p) p.now w).1 v

  locked-Allows :
      (r : Outcome Error (Unit {0})) (w v : W)
      → Allows (locked store zone_info in_flight p r w) v
      → (r ≡ ok tt) × Counted w v
  unfolding locked store_refusal
  locked-Allows (ok tt) w v h = (refl, count-Allows w v h)
  locked-Allows (raised (lock_held i)) w v h = absurd (false≢true h.0)
  locked-Allows (raised (store_unavailable op)) w v h = absurd (false≢true h.0)
  locked-Allows (raised (cap_reached i)) w v h = absurd h
  locked-Allows (raised (exception e)) w v h = absurd h

  lock-Allows : (w v : W) → Allows (lock_launch store zone_info in_flight p w) v → Locked w v
  unfolding lock_launch
  lock-Allows w v h =
      let (taken, rest) =
        locked-Allows (store.take_lock p.launch_id (deadline_of p) p.now w).0
          (store.take_lock p.launch_id (deadline_of p) p.now w).1 v h in
      record { taken = taken; rest = rest }

  -- 4.
  pub record Asked (w v : W) : Type 0 where
    pub idle : (in_flight w).0 ≡ ok []
    pub rest : Locked (in_flight w).1 v

  asked-Allows :
      (r : Outcome Error (List Run)) (w v : W)
      → Allows (asked store zone_info in_flight p r w) v
      → (r ≡ ok []) × Locked w v
  unfolding asked
  asked-Allows (ok []) w v h = (refl, lock-Allows w v h)
  asked-Allows (ok (run ∷ runs)) w v h = absurd (false≢true h.0)
  asked-Allows (raised e) w v h = absurd (false≢true h.0)

  in_flight-Allows :
      (w v : W) → Allows (in_flight_checked store zone_info in_flight p w) v → Asked w v
  unfolding in_flight_checked
  in_flight-Allows w v h =
      let (idle, rest) = asked-Allows (in_flight w).0 (in_flight w).1 v h in
      record { idle = idle; rest = rest }

  -- 3.
  pub record Redeemed (w v : W) : Type 0 where
    pub redeemed : (store.redeem_nonce p.nonce p.now w).0 ≡ ok true
    pub rest : Asked (store.redeem_nonce p.nonce p.now w).1 v

  redeemed-Allows :
      (r : Outcome Error Bool) (w v : W)
      → Allows (redeemed store zone_info in_flight p r w) v
      → (r ≡ ok true) × Asked w v
  unfolding redeemed store_refusal
  redeemed-Allows (ok true) w v h = (refl, in_flight-Allows w v h)
  redeemed-Allows (ok false) w v h = absurd (false≢true h.0)
  redeemed-Allows (raised (store_unavailable op)) w v h = absurd (false≢true h.0)
  redeemed-Allows (raised (lock_held i)) w v h = absurd h
  redeemed-Allows (raised (cap_reached i)) w v h = absurd h
  redeemed-Allows (raised (exception e)) w v h = absurd h

  nonce-Allows : (w v : W) → Allows (nonce_checked store zone_info in_flight p w) v → Redeemed w v
  unfolding nonce_checked
  nonce-Allows w v h =
      let (spent, rest) =
        redeemed-Allows (store.redeem_nonce p.nonce p.now w).0
          (store.redeem_nonce p.nonce p.now w).1 v h in
      record { redeemed = spent; rest = rest }

  -- 1. and 2., and the shape of the launch id
  pub record Launched (w v : W) : Type 0 where
    pub named : is_launch_id p.launch_id ≡ true
    pub flag : Option Item
    pub flag_read : (store.get_flag kill_switch_key w).0 ≡ ok flag
    pub off : engaged flag ≡ false
    pub configured : p.configured ≡ true
    pub rest : Redeemed (store.get_flag kill_switch_key w).1 v

  switch-Allows :
      (w v : W)
      → Allows (switch_checked store zone_info in_flight p none w) v
      → (p.configured ≡ true) × Redeemed w v
  unfolding switch_checked
  switch-Allows w v h = elim (Bool-cases p.configured) [
    | inl e ↦ (e, nonce-Allows w v (rw (e, switch_checked) at h))
    | inr e ↦ absurd (false≢true (rw (e, switch_checked) at h).0)
  ]

  flag-Allows :
      (r : Outcome Error (Option Item)) (w v : W)
      → Allows ((switch_read store r >>= switch_checked store zone_info in_flight p) w) v
      → (flag : Option Item) × (r ≡ ok flag)
        × (engaged flag ≡ false)
        × (p.configured ≡ true)
        × Redeemed w v
  unfolding switch_read switch_on switch_checked store_refusal
  flag-Allows (ok none) w v h = let (c, rest) = switch-Allows w v h in (none, refl, refl, c, rest)
  flag-Allows (ok (some flag)) w v h = elim (Bool-cases (is_true (lookup "engaged" flag))) [
    | inl on ↦ absurd (false≢true (rw (on, switch_read, switch_on) at h).0)
    | inr off ↦
        let (c, rest) = switch-Allows w v (rw (off, switch_read) at h) in
        (some flag, refl, off, c, rest)
  ]
  flag-Allows (raised (store_unavailable op)) w v h = absurd (false≢true h.0)
  flag-Allows (raised (lock_held i)) w v h = absurd h
  flag-Allows (raised (cap_reached i)) w v h = absurd h
  flag-Allows (raised (exception e)) w v h = absurd h

  pub decide_launch-Launched :
      (w v : W) → Allows (decide_launch store zone_info in_flight p w) v → Launched w v
  unfolding decide_launch kill_switch_refusal
  decide_launch-Launched w v h = elim (Bool-cases (is_launch_id p.launch_id)) [
    | inr e ↦ absurd (false≢true (rw (e, decide_launch) at h).0)
    | inl e ↦
        let (flag, read, off, c, rest) =
          flag-Allows (store.get_flag kill_switch_key w).0 (store.get_flag kill_switch_key w).1 v
            (rw (e, decide_launch) at h) in
        record { named = e; flag = flag; flag_read = read; off = off; configured = c; rest = rest }
  ]
