-- ===== src/Control.antt =====
-- infra/self-service/src/control.py: the interface to the control store, the day of the cap, and
-- the decision whether a launch may happen.
pub mod Interface
pub mod Quota
pub mod Decide
pub mod Laws
pub mod Keys
pub mod Contract
pub mod Safety
pub use Interface.*
unfoldable pub use Quota.*
unfoldable pub use Decide.*
