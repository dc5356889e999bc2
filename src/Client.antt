-- ===== src/Client.antt =====
-- What the profiles above SDO call of the layers below: typed transfers
-- (include/socanmatic/sdo.h) and the sending of a frame (include/socanmatic/iface.h).
mod Defs
pub mod Checks
pub mod OfBus
pub use Defs.*
