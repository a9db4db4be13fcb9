-- ===== src/Examples.antt =====
-- The small programs under examples: what their callbacks and main functions do with the library.
-- Their printing is left out.
pub mod Blinky
pub mod Cansend
pub mod Loopback
mod Tests
