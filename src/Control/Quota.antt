-- ===== src/Control/Quota.antt =====
-- control.py: the day of the cap, in one named timezone. The IANA data and Python's datetime enter
-- as `Zone`, what they say of one zone, and `ZoneInfo`, which loads a zone or raises.
use aws_devops_sdet_demo.Prelude.{
  ℕ, suc, ℤ, sub_ℕ, String, Option, none, some, Outcome, ok, raised, ◌==◌, ◌+++◌, if◌then◌else◌,
}
use aws_devops_sdet_demo.Control.Interface.{Error, store_unavailable}

pub record Zone : Type 0 where
  -- the local calendar day of an instant, numbered in order
  pub local_day : ℕ → ℕ
  -- the day as `%Y-%m-%d`
  pub day_text : ℕ → String
  -- the instant of `datetime(year, month, day, tzinfo=zone)`
  pub midnight : ℕ → ℕ
  -- the abbreviation in force at an instant, and the instant as `%Y-%m-%d %H:%M`
  pub tzname : ℤ → String
  pub clock_text : ℤ → String

abbrev pub ZoneInfo : Type 0
ZoneInfo = String → Outcome String Zone

abbrev pub default_quota_tz : String
default_quota_tz = "America/Los_Angeles"

-- `name or DEFAULT_QUOTA_TZ`
abbrev pub zone_name : Option String → String
zone_name none = default_quota_tz
zone_name (some name) = if name == "" then default_quota_tz else name

module _ (zone_info : ZoneInfo) where
  loaded : String → Outcome String Zone → Outcome Error Zone
  loaded name (ok zone) = ok zone
  loaded name (raised exc) = raised (
      store_unavailable (
        "the quota timezone '"
        +++ (name
            +++ ("' could not be loaded ("
                +++ (exc
                    +++ "). Refusing rather than counting in a different day than the one every message names.")))))

  unfoldable pub quota_zone : Option String → Outcome Error Zone
  unfolding loaded
  quota_zone name = loaded (zone_name name) (zone_info (zone_name name))

  abbrev pub day_in : ℕ → Outcome Error Zone → Outcome Error String
  day_in now (ok zone) = ok (zone.day_text (zone.local_day now))
  day_in now (raised e) = raised e

  unfoldable pub quota_day : ℕ → Option String → Outcome Error String
  unfolding quota_zone
  quota_day now name = day_in now (quota_zone name)

  abbrev pub reset_in : ℕ → Outcome Error Zone → Outcome Error ℤ
  reset_in now (ok zone) = ok (sub_ℕ (zone.midnight (suc (zone.local_day now))) now)
  reset_in now (raised e) = raised e

  unfoldable pub seconds_until_quota_reset : ℕ → Option String → Outcome Error ℤ
  unfolding quota_zone
  seconds_until_quota_reset now name = reset_in now (quota_zone name)
