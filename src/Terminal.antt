-- ===== src/Terminal.antt =====
-- The KISS terminal src/ax25kiss.cpp, which has a codec of its own: the child modules model its KISS codec
-- (Stream), its addresses (Station), its frames (Wire) and its commands (Session).
pub mod Stream
pub mod Station
pub mod Wire
pub mod Session
