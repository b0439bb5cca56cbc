-- ===== src/Tests.antt =====
-- The theorems at concrete inputs.
mod Links
mod Codecs
mod Routing
mod Scripts
mod Terminals
mod Tools
