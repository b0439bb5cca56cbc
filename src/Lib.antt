-- ===== src/Lib.antt =====
-- AX25Toolkit: a model of the AX.25 stack of lib/ax25lib.hpp and lib/ax25lib.cpp, of the HDLC framing
-- of kiss_modem/hdlc.h and kiss_modem/hdlc.cpp, of the BASIC interpreter of lib/basic.hpp and
-- lib/basic.cpp, of the configuration, script and dump helpers in lib, and of the core of the programs
-- src/ax25kiss.cpp, src/ax25send.cpp and kiss_modem/kiss_modem.cpp, with the theorems that make them
-- correct.
--
-- The parts and their files. Bytes from a transport go through the KISS decoder to the router, which
-- decodes a frame and gives it to the connection of its two addresses; the connection answers with
-- frames that the router encodes, holds back during a turnaround, and hands to the KISS encoder. The
-- modem carries a frame as a stream of bits with flags and a check sequence. The interpreter runs the
-- scripts of a station; it talks to the world by callbacks only. The sender is a client of the library;
-- the terminal has a codec of its own, which meets the library's on the wire.
--
-- - Base: lists, tests and text over the native numbers; Base/Bits and Base/Words have the laws of
--   `&`, `|` and `^`, from that for the lowest digit in Base/Digits; Base/Text has what the code uses
--   of the C++ library for text (`toupper`, `stoi`, `to_string`, `strcmp`), with `getline` in
--   Base/Text/Fields and the trimming of blanks in Base/Text/Trim, and Base/Dict `std::map`, whose
--   order of keys is in Base/Dict/Order.
-- - ObjList, the intrusive list that connections are members of: a store of links, with the laws of
--   segments in ObjList/Segments and those of `insert_back` and `erase` in ObjList/Operations.
-- - Kiss, namespace `kiss`: `encode`, and `Decoder::feed` as `feed`, which returns the decoder, the
--   frames and the bytes for the raw callback. Kiss/Cmd has the command bytes, Kiss/Params the
--   parameter commands and `send_frame` of class `Kiss`.
-- - Addr, struct `Addr`: `make`, `decode`, `encode`, `str`, and `operator==` as `addr_eq`. The SSID is
--   an `int` of any sign, as a call sign may carry one.
-- - Frame, struct `Frame`: `type`, `decode` and `encode`, the builders of control bytes, and `format`
--   in Frame/Format. Frame/Heard is what a receiver makes of a transport's bytes.
-- - Connection, class `Connection`: the record has the members of the class; the queue `events` has
--   the frames sent and the callbacks called, in order. Connection/Window is the window management,
--   Connection/Machine is `handle_frame` with one function for each state and case,
--   Connection/Timers is `tick`, and Connection/Api has `start_connect`, `send`, `disconnect` and the
--   destructor.
-- - Router, class `Router`: `route`, `connect`, `send_ui`, `poll`, `tx` and `drain_tx`. The record
--   has the decoder of `Kiss`, the connections, the queue of the turnaround, the frames handed to
--   `Kiss::send_frame`, and the callbacks called.
-- - Hdlc: `fcs_calc` with its table in Hdlc/Table, `Decoder::receive_bit`, and `Encoder::encode`.
--   Hdlc/Encoding also has the level comparison of `nudge_pll` in kiss_modem/modem.cpp.
-- - Basic, class `Basic`: the record `Interp` has its tables and stacks. Basic/Lexer is `Lexer`,
--   Basic/Vars the variables, Basic/Load `clear` to `include_file`, Basic/Scan `first_pass`,
--   Basic/Blocks the searches for the lines that close a block. Basic/Eval is the evaluator, a chain
--   of steps of a cursor (Basic/Eval/Steps), with `eval_func` over a table of names
--   (Basic/Eval/Builtins, Basic/Eval/Primary). Basic/Control has the commands that jump, with those
--   that evaluate in Basic/Control/Commands and Basic/Control/Cases, maps and queues in
--   Basic/Control/Collections, and `call_proc` and `run` in Basic/Control/Calls. Basic/Statements has
--   the other statements, Basic/Statements/Exec `exec_stmt` and `exec_line`, and
--   Basic/Statements/Program ties expressions, calls and lines together.
-- - Modem, kiss_modem/kiss_modem.cpp: `can_supersede`, `enqueue_frame` and the loop of `run_bridge` over
--   the frames from the host, with the scrambler of kiss_modem/modem.cpp.
-- - Ini, class `IniConfig` of lib/ini.hpp: `load` and the lookups. Ini/Lines is what a line means.
-- - Aprs, namespace `aprs`: `make_msg`, `parse_msg`, `is_pos` and `info_str`, and `make_pos` in
--   Aprs/Position.
-- - ScriptFinder, class `ScriptFinder` of lib/script_finder.hpp: `search_dirs`, `find` and `resolve`.
-- - Dump, lib/ax25dump.hpp: `hex_dump` and `ctrl_detail`.
-- - Sender, src/ax25send.cpp: the loop of `main`, as the bytes written and the exit code.
-- - Terminal, src/ax25kiss.cpp: Terminal/Stream is its namespace `KISS`, Terminal/Station its struct
--   `Addr`, Terminal/Wire its namespace `AX25`, and Terminal/Session the class `Terminal`, from the typed
--   line to the bytes written and the messages said.
-- - Tests: the theorems at concrete inputs.
--
-- Numbers. A `uint8_t` or `uint16_t` is a natural number, with the wrap-around written out where the
-- code relies on it; `Millis` wraps at 2 ^ 64. The product in `compute_t1` is taken not to overflow an
-- `int`; the numbers of a `Config` are not negative, and the counters (`retry_`, `poll_sent_`) do not
-- wrap.
--
-- A `double` of the interpreter is a value of a parameter, the record `Floats`, with the operations
-- that the code uses; the mathematics of the C library and `std::regex` are the parameter `Host`, the
-- files that can be included a function from their paths, and what `rand` gives a list. Line numbers
-- are natural numbers, as the code's are while they fit an `int`; where they do not, it overflows, and
-- the model says nothing of it. Casts from `double` to `int` are the parameter's.
-- `make_pos` and the sender use the same record, and take what `%05.2f` prints and what `strtod` reads as
-- parameters. The file system and the regular expressions of the script finder are the parameter
-- `System`; which writes to the serial port succeed is a parameter of the terminal, where a write puts all
-- of its bytes on the line or none.
--
-- Loops are recursion on the list that they consume. Loops with fuel: `cut`, which cuts the bytes of
-- `Connection::send`, has the number of bytes, which is enough for a positive MTU, since each piece
-- takes at least one byte. The loops of the interpreter over tokens and operators have the length of
-- what is left of the line, and each round takes a character of it at least (Basic/Lexer/Progress,
-- Basic/Blocks/Rounds). INCLUDE has 16 levels, as
-- the code. The snapshot of an `ObjList` has one round more than the list has objects, the search for a
-- control byte in `can_supersede` eleven, where its bound of 70 stops it after the tenth, and a dump as many
-- as it has bytes. `eval_expr` has fuel for open parentheses and for a procedure's arguments, `call_proc` and
-- `run` for lines; there `none` is a run that does not end within it.
--
-- Time is an argument: `now` is what `now_ms()` returns during a call. A callback makes no call back
-- into the connection or router that calls it, and deletes no connection. All callbacks of a connection
-- are set.
--
-- Not modelled: opening, reading and writing of devices (`Serial`, the transport side of `Kiss`),
-- the option parsers; the modem's filters, channel access, audio and PTT, the Bluetooth transports, and
-- the bridge, BBS, TNC, simulator and BASIC programs. The router's model holds its connections in a plain
-- list, apart from that of `ObjList`. Of the terminal, the receiving thread and what it prints (`format`,
-- colours, the time) are left out, of the script finder the dialogue `resolve_interactive`, and of the
-- sender the opening of the device and the waits. Of the interpreter, FOR with IN, SLEEP, the APRS
-- statements, the database, sockets, shell and HTTP are a parameter of the dispatch; an `interrupt` that
-- comes from another thread while a program runs is not modelled.
pub mod Base
pub mod Kiss
pub mod Addr
pub mod Frame
pub mod Connection
pub mod ObjList
pub mod Router
pub mod Hdlc
pub mod Modem
pub mod Basic
pub mod Ini
pub mod Aprs
pub mod ScriptFinder
pub mod Sender
pub mod Dump
pub mod Terminal
pub mod Tests
