-- ===== src/Kiss/Cmd.antt =====
-- The enumeration `kiss::Cmd` of lib/ax25lib.hpp, as its underlying bytes.
use ax25toolkit.Base.{ℕ}

abbrev pub data_frame : ℕ
data_frame = 0x00

abbrev pub tx_delay : ℕ
tx_delay = 0x01

abbrev pub persistence : ℕ
persistence = 0x02

abbrev pub slot_time : ℕ
slot_time = 0x03

abbrev pub tx_tail : ℕ
tx_tail = 0x04

abbrev pub full_duplex : ℕ
full_duplex = 0x05

abbrev pub set_hardware : ℕ
set_hardware = 0x06

abbrev pub return_mode : ℕ
return_mode = 0xFF
