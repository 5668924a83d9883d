-- ===== src/Launch/Effects.antt =====
-- What a press leaves in the control store, dispatched or not.
use aws_devops_sdet_demo.Prelude.{
  ℕ, String, ◌≡◌, refl, ap, ◌∙◌, ◌⊎◌, inl, inr, true, Option, none, some, [], Value, Fields, get,
  Exec, Outcome, ok, raised, Bool-cases, Outcome-cases, Stable, stable_rules, Stable-bind,
  ok-injective,
}
use aws_devops_sdet_demo.Control.Interface.{Error, ControlStore, Decision}
use aws_devops_sdet_demo.Control.Quota.{ZoneInfo}
use aws_devops_sdet_demo.Control.Laws.{Table, StoreLaws, lock_key, count_key}
use aws_devops_sdet_demo.Control.Decide.{decide_launch, release_quietly}
use aws_devops_sdet_demo.Control.Decide.Trace.{Allows}
use aws_devops_sdet_demo.Control.Keys.{lock-ne-count}
use aws_devops_sdet_demo.Control.Safety.{Passed, before_asking, decide_launch_passes}
use aws_devops_sdet_demo.Github.{Http}
use aws_devops_sdet_demo.Github.Effects.{
  HttpLaws, installation_token-Stable, dispatch_workflow-Stable, in_flight_runs-Stable,
}
use aws_devops_sdet_demo.Launch.{
  Config, launched, dispatch_failed, Response, Minting, keeping, minting_store, press_of,
  fresh_token, token, in_flight, dispatch, dispatched, decided, press_decided, detail_fields,
}

module _ {W : Type 0} (store : ControlStore W) (table : W → Table)
    (laws : StoreLaws store table) where
  abbrev pub world_table : Minting W → Table
  world_table m = table m.0

  pub minting_store-StoreLaws : StoreLaws (minting_store store) world_table
  minting_store-StoreLaws = record {
    get_flag_reads = λ key m. laws.get_flag_reads key m.0;
    get_flag_keeps = λ key m. laws.get_flag_keeps key m.0;
    redeem_keeps = λ nonce now m. laws.redeem_keeps nonce now m.0;
    redeem_spends = λ nonce now m. laws.redeem_spends nonce now m.0;
    lock_keeps = λ launch_id expires_at now m. laws.lock_keeps launch_id expires_at now m.0;
    lock_taken = λ launch_id expires_at now m. laws.lock_taken launch_id expires_at now m.0;
    lock_refused = λ launch_id expires_at now m. laws.lock_refused launch_id expires_at now m.0;
    release_keeps = λ m. laws.release_keeps m.0;
    release_frees = λ m. laws.release_frees m.0;
    increment_keeps = λ day cap m. laws.increment_keeps day cap m.0;
    increment_counts = λ day cap m. laws.increment_counts day cap m.0;
    increment_refused = λ day cap m. laws.increment_refused day cap m.0;
  }

keeping-Stable :
    {W E A : Type 0} (table : W → Table) (m : Exec W E A)
    → Stable table m
    → Stable {W = Minting W} (λ x. table x.0) (keeping m)
keeping-Stable table m h = record { at = λ x. h.at x.0 }

module _ {W : Type 0} (store : ControlStore W) (table : W → Table) (laws : StoreLaws store table)
    (http : Http W) (quiet : HttpLaws http table) (zone_info : ZoneInfo) (config : Config)
    (now : ℕ) where
  fresh_token-Stable : Stable table (fresh_token zone_info config store now http)
  unfolding fresh_token
  fresh_token-Stable =
      search (stable_rules, quiet.secret_keeps, installation_token-Stable http table quiet)

  token-at :
      (w : W) (t : Option Value)
      → table (token zone_info config store now http (w, t)).1.0 ≡ table w
  unfolding token
  token-at w (some known) = refl
  token-at w none = fresh_token-Stable.at w

  token-Stable : Stable (λ (x : Minting W). table x.0) (token zone_info config store now http)
  token-Stable = record { at = λ x. token-at x.0 x.1 }

  in_flight-Stable :
      Stable (λ (x : Minting W). table x.0) (in_flight zone_info config store now http)
  unfolding in_flight
  in_flight-Stable =
      Stable-bind _ _ token-Stable
        λ t. keeping-Stable table _ (in_flight_runs-Stable http table quiet t _ _ _)

  dispatch-Stable :
      (launch_id : Value)
      → Stable (λ (x : Minting W). table x.0) (dispatch zone_info config store now http launch_id)
  unfolding dispatch
  dispatch-Stable launch_id =
      Stable-bind _ _ token-Stable
        λ t. keeping-Stable table _ (dispatch_workflow-Stable http table quiet t _ _ _ _ _)

  abbrev pressed : String → String → Exec (Minting W) Error Decision
  pressed launch_id nonce =
      decide_launch (minting_store store) zone_info (in_flight zone_info config store now http)
        (press_of config now launch_id nonce)

  pub in_flight-asks :
      (x : Minting W) (j : String)
      → table (in_flight zone_info config store now http x).1.0 j ≡ table x.0 j
  in_flight-asks x j = ap (λ t. t j) (in_flight-Stable.at x)

  -- The world in which a press asks GitHub for the runs in flight.
  abbrev pub asking : String → String → Minting W → Minting W
  asking launch_id nonce w =
      before_asking (minting_store store) (λ x. table x.0)
        (minting_store-StoreLaws store table laws) zone_info
        (in_flight zone_info config store now http) in_flight-asks
        (press_of config now launch_id nonce) w

  -- The guardrails that show in the items, and the one that asks GitHub: it named no run in flight.
  abbrev pub Passes : String → String → Minting W → Minting W → Type 0
  Passes launch_id nonce w v =
      Passed zone_info (press_of config now launch_id nonce) (table w.0) (table v.0)
      × ((in_flight zone_info config store now http (asking launch_id nonce w)).0 ≡ ok [])

  Allows-of :
      (launch_id nonce : String) (x : Outcome Error Decision × Minting W) (d : Decision)
      → x.0 ≡ ok d
      → d.allowed ≡ true
      → Allows
          (minting_store store)
          zone_info
          (in_flight zone_info config store now http)
          (press_of config now launch_id nonce)
          x
          x.1
  Allows-of launch_id nonce (ok d', u) d e a = (ap (λ y. y.allowed) (ok-injective e) ∙ a, refl)
  Allows-of launch_id nonce (raised y, u) d e a = cc e

  passes :
      (launch_id nonce : String) (w : Minting W) (d : Decision)
      → (pressed launch_id nonce w).0 ≡ ok d
      → d.allowed ≡ true
      → Passes launch_id nonce w (pressed launch_id nonce w).1
  passes launch_id nonce w d e a =
      decide_launch_passes (minting_store store) (λ x. table x.0)
        (minting_store-StoreLaws store table laws) zone_info
        (in_flight zone_info config store now http) in_flight-asks
        (press_of config now launch_id nonce) w (pressed launch_id nonce w).1
        (Allows-of launch_id nonce (pressed launch_id nonce w) d e a)

  abbrev end_of : Fields → Outcome Error (Unit {0}) → Minting W → Outcome Error Response × Minting W
  end_of detail o = dispatched zone_info config store now http detail o

  dispatched-launched :
      (detail : Fields) (o : Outcome Error (Unit {0})) (u : Minting W) (r : Response)
      (a b c : Value)
      → (end_of detail o u).0 ≡ ok r
      → r.body ≡ launched a b c
      → (end_of detail o u).1 ≡ u
  unfolding dispatched
  dispatched-launched detail (ok x) u r a b c e body = refl
  dispatched-launched detail (raised x) u r a b c e body = cc (ok-injective e)

  dispatched-failed :
      (detail : Fields) (o : Outcome Error (Unit {0})) (u : Minting W) (r : Response)
      (name : String)
      → (end_of detail o u).0 ≡ ok r
      → r.body ≡ dispatch_failed name
      → (end_of detail o u).1.0 ≡ (store.release_lock u.0).1
  unfolding dispatched release_quietly
  dispatched-failed detail (ok x) u r name e body = cc (ok-injective e)
  dispatched-failed detail (raised x) u r name e body = refl

  abbrev sent : Decision → Exec (Minting W) Error (Unit {0})
  sent d = dispatch zone_info config store now http (get "launch_id" (detail_fields d.detail))

  decided-launched :
      (d : Decision) (u : Minting W) (r : Response) (a b c : Value)
      → (decided zone_info config store now http d u).0 ≡ ok r
      → r.body ≡ launched a b c
      → (d.allowed ≡ true) × (table (decided zone_info config store now http d u).1.0 ≡ table u.0)
  unfolding decided
  decided-launched d u r a b c e body = elim (Bool-cases d.allowed) [
    | inr no_launch ↦ cc (ok-injective (rw (no_launch, decided) at e))
    | inl yes_launch ↦ (
      yes_launch,
      rw (yes_launch, decided)
          (ap (λ x. table x.0)
              (dispatched-launched (detail_fields d.detail) (sent d u).0 (sent d u).1 r a b c
                (rw (yes_launch, decided) at e) body)
            ∙ (dispatch-Stable _).at u),
    )
  ]

  decided-failed :
      (d : Decision) (u : Minting W) (r : Response) (name : String)
      → (decided zone_info config store now http d u).0 ≡ ok r
      → r.body ≡ dispatch_failed name
      → (d.allowed ≡ true)
        × ((decided zone_info config store now http d u).1.0
            ≡ (store.release_lock (sent d u).1.0).1)
  unfolding decided
  decided-failed d u r name e body = elim (Bool-cases d.allowed) [
    | inr no_launch ↦ cc (ok-injective (rw (no_launch, decided) at e))
    | inl yes_launch ↦ (
      yes_launch,
      rw (yes_launch, decided)
          (dispatched-failed (detail_fields d.detail) (sent d u).0 (sent d u).1 r name
            (rw (yes_launch, decided) at e) body),
    )
  ]

  freed :
      (u v : W)
      → v ≡ (store.release_lock u).1
      → (table v lock_key ≡ none) ⊎ ((e : Error) × ((store.release_lock u).0 ≡ raised e))
  freed u v h = elim (Outcome-cases (store.release_lock u).0) [
    | inl (tt, e) ↦ inl (ap (λ x. table x lock_key) h ∙ laws.release_frees u e)
    | inr (x, e) ↦ inr (x, e)
  ]

  -- Where the reply to a press says that the dispatch went out, the press passed every guardrail:
  -- from the items before the press to the items after it the nonce is spent, the lock is held
  -- and the launch is counted, and GitHub had answered that no run was in flight.
  pub launched-Passes :
      (launch_id nonce : String) (w : Minting W) (r : Response) (a b c : Value)
      → (press_decided zone_info config store now http launch_id nonce w).0 ≡ ok r
      → r.body ≡ launched a b c
      → Passes launch_id nonce w (press_decided zone_info config store now http launch_id nonce w).1
  unfolding press_decided
  launched-Passes launch_id nonce w r a b c e body =
      elim (Outcome-cases (pressed launch_id nonce w).0) [
        | inr (x, raised_x) ↦ cc (rw (raised_x, press_decided) at e)
        | inl (d, ok_d) ↦
            let u = (pressed launch_id nonce w).1 in
            let (allowed, same) =
              decided-launched d u r a b c (rw (ok_d, press_decided) at e) body in
            let passed = passes launch_id nonce w d ok_d allowed in
            (rw (ok_d, press_decided) (rw same passed.0), passed.1)
      ]

  -- Where the reply to a press says that the dispatch failed, the press had passed every guardrail
  -- up to some world, GitHub's answer that no run was in flight included; the counter of every day is still as in that world, and the lock is gone or
  -- releasing it in that world raised.
  pub failed_dispatch_releases :
      (launch_id nonce : String) (w : Minting W) (r : Response) (name : String)
      → (press_decided zone_info config store now http launch_id nonce w).0 ≡ ok r
      → r.body ≡ dispatch_failed name
      → (u : Minting W) × Passes launch_id nonce w u
        × ((day : String)
            → table
                (press_decided zone_info config store now http launch_id nonce w).1.0
                (count_key day)
              ≡ table u.0 (count_key day))
        × ((table (press_decided zone_info config store now http launch_id nonce w).1.0 lock_key
              ≡ none)
            ⊎ ((e : Error) × ((store.release_lock u.0).0 ≡ raised e)))
  unfolding press_decided
  failed_dispatch_releases launch_id nonce w r name e body =
      elim (Outcome-cases (pressed launch_id nonce w).0) [
        | inr (x, raised_x) ↦ cc (rw (raised_x, press_decided) at e)
        | inl (d, ok_d) ↦
            let u = (pressed launch_id nonce w).1 in
            let v = (sent d u).1 in
            let (allowed, released) =
              decided-failed d u r name (rw (ok_d, press_decided) at e) body in
            let passed = passes launch_id nonce w d ok_d allowed in
            (
              v,
              (rw ((dispatch-Stable _).at u) passed.0, passed.1),
              rw (ok_d, press_decided)
                  (λ day.
                    ap (λ x. table x (count_key day)) released
                    ∙ laws.release_keeps v.0 (count_key day) (lock-ne-count day)),
              rw (ok_d, press_decided) (freed v.0 _ released),
            )
      ]
