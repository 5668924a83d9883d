-- ===== src/Control/Decide.antt =====
-- control.py: `decide_launch`, one function for each of its six refusals, the last first; the kill
-- switch; the expiry of a lock.
pub mod Trace
use Prim.Native.Char.{Char, code}
use Prim.Native.String.{count}
use aws_devops_sdet_demo.Prelude.{
  ℕ, ◌+◌, ◌*◌, ℤ, pos, ◌+ℤ◌, leb_ℤ, String, Bool, true, false, ◌&&◌, ◌||◌, Option, none, some, List,
  [], ◌∷◌, Scalar, int, str, Fields, end, field, get, Item, lookup, scalar_value, scalar_str,
  scalar_int, is_true, Exec, Outcome, ok, raised, pure, raise, lift, attempt, ◌>>=◌, ◌>>◌, leb,
  ◌==◌, if◌then◌else◌,
}
use aws_devops_sdet_demo.Control.Interface.{
  Error, store_unavailable, cap_reached, lock_held, exception, ControlStore, Decision, refuse,
  bad_launch_id, path_not_configured, bad_nonce, github_unasked, launch_running, launching,
  cycle_running, limit_used, launches_disabled, store_unreadable,
}
use aws_devops_sdet_demo.Control.Quota.{
  ZoneInfo, zone_name, quota_zone, quota_day, seconds_until_quota_reset,
}

is_launch_char : Char → Bool
is_launch_char c =
    (leb b'a' (code c) && leb (code c) b'z')
    || (leb b'0' (code c) && leb (code c) b'9')
    || (String.◌∷◌ c String.[] == "-")

all_launch_chars : String → Bool
unfolding is_launch_char
all_launch_chars String.[] = true
all_launch_chars (String.◌∷◌ c s) = is_launch_char c && all_launch_chars s

-- `LAUNCH_ID.match`: 8 to 64 characters of [a-z0-9-].
unfoldable pub is_launch_id : String → Bool
unfolding all_launch_chars
is_launch_id s = all_launch_chars s && (leb 8 (count s) && leb (count s) 64)

abbrev pub kill_switch_key : String
kill_switch_key = "killswitch"

pub store_refusal : String → Decision
store_refusal operation =
    refuse "store_unavailable" store_unreadable 503 (some (field "operation" (str operation) end))

-- The deadline of a lock; one that is missing or unreadable has passed.
abbrev passed : Option ℤ → ℕ → Bool
passed none now = true
passed (some deadline) now = leb_ℤ deadline (pos now)

unfoldable pub lock_is_expired : Option Item → ℕ → Bool
unfolding scalar_int
lock_is_expired none now = false
lock_is_expired (some []) now = false
lock_is_expired (some (entry ∷ rest)) now =
    passed (scalar_int (lookup "expires_at" (entry ∷ rest))) now

-- The keyword arguments of `decide_launch`, but for `in_flight`.
pub record Press : Type 0 where
  pub now : ℕ
  pub launch_id : String
  pub nonce : String
  pub ttl_minutes : ℕ
  pub daily_cap : ℕ
  pub configured : Bool
  pub quota_timezone : Option String

abbrev pub deadline_of : Press → ℕ
deadline_of p = p.now + p.ttl_minutes * 60

-- `type(exc).__name__`
abbrev pub error_name : Error → String
error_name (store_unavailable _) = "StoreUnavailable"
error_name (cap_reached _) = "CapReached"
error_name (lock_held _) = "LockHeld"
error_name (exception name) = name

-- A dict that the Actions API answered for a run.
abbrev pub Run : Type 0
Run = Fields

-- `str(flag.get("source", ""))`
abbrev source_text : Option Scalar → String
source_text none = ""
source_text (some s) = scalar_str s

switch_on : Item → Decision
switch_on flag =
    let by_budget = source_text (lookup "source" flag) == "budget-alarm" in
    let source =
      if is_true (lookup "source" flag)
      then scalar_value (lookup "source" flag)
      else str "manual" in
    refuse "kill_switch" (launches_disabled by_budget) 503
      (some (field "since" (scalar_value (lookup "engaged_at" flag)) (field "source" source end)))

busy_with : Run → Decision
busy_with run = refuse "busy" (cycle_running (get "run_number" run) (get "head_branch" run)) 409 (
    some (
      field "run_number" (get "run_number" run) (
        field "head_branch" (get "head_branch" run)
          (field "status" (get "status" run) (field "html_url" (get "html_url" run) end)))))

locked_by : Item → Decision
locked_by holder = refuse "locked" launch_running 409 (
    some (
      field "launch_id" (scalar_value (lookup "launch_id" holder))
        (field "expires_at" (scalar_value (lookup "expires_at" holder)) end)))

launch : Press → ℤ → Decision
launch p count = record {
  allowed = true;
  code = "ok";
  message = launching;
  status = 200;
  detail = some (
      field "launch_id" (str p.launch_id)
        (field "expires_at" (int (pos (deadline_of p))) (field "launches_today" (int count) end)));
}

module _ {W : Type 0} (store : ControlStore W) where
  switch_read : Outcome Error (Option Item) → Exec W Error (Option Decision)
  unfolding switch_on is_true
  switch_read (ok none) = pure none
  switch_read (ok (some flag)) =
      pure (if is_true (lookup "engaged" flag) then some (switch_on flag) else none)
  switch_read (raised (store_unavailable operation)) = pure (some (store_refusal operation))
  switch_read (raised e) = raise e

  unfoldable pub kill_switch_refusal : Exec W Error (Option Decision)
  unfolding switch_read
  kill_switch_refusal = do flag ← attempt (store.get_flag kill_switch_key); switch_read flag

  -- `_release_quietly`: whatever the release raises is dropped.
  unfoldable pub release_quietly : Exec W Error (Unit {0})
  release_quietly = do attempt store.release_lock; pure tt

  module _ (zone_info : ZoneInfo) (in_flight : Exec W Error (List Run)) (p : Press) where
    -- 6. the answer at the cap
    limit_reached : Exec W Error Decision
    unfolding quota_zone seconds_until_quota_reset
    limit_reached = do
      seconds ← lift (seconds_until_quota_reset zone_info p.now p.quota_timezone)
      zone ← lift (quota_zone zone_info p.quota_timezone)
      again ← lift (seconds_until_quota_reset zone_info p.now p.quota_timezone)
      let reset_at = pos p.now +ℤ seconds
      pure (
          refuse "daily_cap"
            (limit_used p.daily_cap (zone.tzname reset_at) (zone.clock_text reset_at)
              (zone_name p.quota_timezone))
            429 (some (field "resets_in_seconds" (int again) end)))

    counted : Outcome Error ℤ → Exec W Error Decision
    unfolding release_quietly limit_reached launch
    counted (ok count) = pure (launch p count)
    counted (raised (cap_reached day)) = do release_quietly; limit_reached
    counted (raised (store_unavailable operation)) = do
      release_quietly
      pure (store_refusal operation)
    counted (raised e) = raise e

    count_launch : Exec W Error Decision
    unfolding counted quota_day
    count_launch = do
      r ← attempt (do
        day ← lift (quota_day zone_info p.now p.quota_timezone)
        store.increment_day day p.daily_cap)
      counted r

    -- 5. the lock
    locked : Outcome Error (Unit {0}) → Exec W Error Decision
    unfolding count_launch locked_by
    locked (ok _) = count_launch
    locked (raised (lock_held holder)) = pure (locked_by holder)
    locked (raised (store_unavailable operation)) = pure (store_refusal operation)
    locked (raised e) = raise e

    lock_launch : Exec W Error Decision
    unfolding locked
    lock_launch = do r ← attempt (store.take_lock p.launch_id (deadline_of p) p.now); locked r

    -- 4. a cycle in flight
    asked : Outcome Error (List Run) → Exec W Error Decision
    unfolding lock_launch busy_with
    asked (ok []) = lock_launch
    asked (ok (run ∷ rest)) = pure (busy_with run)
    asked (raised e) =
        pure (refuse "github" github_unasked 503 (some (field "error" (str (error_name e)) end)))

    in_flight_checked : Exec W Error Decision
    unfolding asked
    in_flight_checked = do runs ← attempt in_flight; asked runs

    -- 3. the nonce
    redeemed : Outcome Error Bool → Exec W Error Decision
    unfolding in_flight_checked
    redeemed (ok true) = in_flight_checked
    redeemed (ok false) = pure (refuse "nonce" bad_nonce 409 none)
    redeemed (raised (store_unavailable operation)) = pure (store_refusal operation)
    redeemed (raised e) = raise e

    nonce_checked : Exec W Error Decision
    unfolding redeemed
    nonce_checked = do r ← attempt (store.redeem_nonce p.nonce p.now); redeemed r

    -- 2. the configuration, once the switch let the press pass
    switch_checked : Option Decision → Exec W Error Decision
    unfolding nonce_checked
    switch_checked (some refusal) = pure refusal
    switch_checked none =
        if p.configured
        then nonce_checked
        else pure (refuse "not_configured" path_not_configured 503 none)

    unfoldable pub decide_launch : Exec W Error Decision
    unfolding kill_switch_refusal switch_checked is_launch_id
    decide_launch =
        if is_launch_id p.launch_id
        then (do refusal ← kill_switch_refusal; switch_checked refusal)
        else pure (refuse "bad_request" bad_launch_id 400 none)
