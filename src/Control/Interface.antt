-- ===== src/Control/Interface.antt =====
-- control.py: the exceptions, the `ControlStore` interface and `Decision`.
use aws_devops_sdet_demo.Prelude.{ℕ, ℤ, String, Bool, Option, Value, Fields, Item, Exec, false}

pub data Error : Type 0 where
  store_unavailable : String → Error
  cap_reached : String → Error
  lock_held : Item → Error
  -- any other exception, by the name of its type
  exception : String → Error

-- What the decision logic needs from the store; `W` is the world that its calls read and change.
pub record ControlStore (W : Type 0) : Type 0 where
  pub get_flag : String → Exec W Error (Option Item)
  pub redeem_nonce : String → ℕ → Exec W Error Bool
  pub issue_nonce : String → ℕ → Exec W Error (Unit {0})
  pub take_lock : String → ℕ → ℕ → Exec W Error (Unit {0})
  pub read_lock : Exec W Error (Option Item)
  pub release_lock : Exec W Error (Unit {0})
  pub increment_day : String → ℕ → Exec W Error ℤ
  pub read_day : String → Exec W Error ℤ
  pub read_sweep : Exec W Error (Option Item)
  pub note_sweep : String → ℕ → ℕ → Exec W Error (Unit {0})
  pub clear_sweep : Exec W Error (Unit {0})

-- The texts of the replies, one constructor for each, with the values put into it.
pub data Message : Type 0 where
  bad_launch_id path_not_configured bad_nonce github_unasked launch_running launching : Message
  -- run number and branch
  cycle_running : Value → Value → Message
  -- the cap, the zone's abbreviation, the instant of the reset, the zone's name
  limit_used : ℕ → String → String → String → Message
  -- by the budget alarm, or by hand
  launches_disabled : Bool → Message
  store_unreadable : Message

pub record Decision : Type 0 where
  pub allowed : Bool
  pub code : String
  pub message : Message
  pub status : ℕ
  pub detail : Option Fields

abbrev pub refuse : String → Message → ℕ → Option Fields → Decision
refuse code message status detail = record {
  allowed = false;
  code = code;
  message = message;
  status = status;
  detail = detail;
}
