-- ===== src/Ds402.antt =====
-- Drives (src/ds402.c, include/socanmatic/ds402.h): the state that a status word stands for, the
-- control word, and the start of a drive.
pub mod Words
pub mod State
pub mod Start
pub mod OpMode
mod Tests
