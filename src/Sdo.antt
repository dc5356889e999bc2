-- ===== src/Sdo.antt =====
-- Service data objects (src/sdo.c, include/socanmatic/sdo.h): the message, its encoding as a CAN
-- frame and back, and the exchanges of a request for its response.
pub mod Command
pub mod Msg
pub mod Encode
pub mod Decode
pub mod RoundTrip
pub mod Query
pub mod Typed
pub mod Fixture
mod Tests
