-- ===== src/Terminal/Session/Stations.antt =====
-- The stations of a session through all its commands.
use ax25toolkit.Base.{
  Bool, true, false, List, [], ◌∷◌, map, Bytes, All, is_empty, if◌then◌else◌, Option, none, some,
  ◌||◌, ◌==◌,
}
use ax25toolkit.Base.Int.{ℤ, pos, negsuc}
use ax25toolkit.Base.Text.{stoi, codes, bytes_eq, to_lower, break_at}
use ax25toolkit.Base.Text.Trim.{trim}
use ax25toolkit.Base.Text.Fields.{fields}
use ax25toolkit.Terminal.Station.{Station, from_str}
use ax25toolkit.Terminal.Station.Typed.{IsTyped, from_str-IsTyped}
use ax25toolkit.Terminal.Session.{
  Session, Effect, is_blank, stations_of, parse_digi_path, cmd_mycall, cmd_dest, cmd_digi,
  cmd_txdelay, cmd_persist, txdelay_to, persist_to, cmd_send, dispatch_command, process_line,
  after_line, input_loop, or_nothing,
}

-- All stations are typed ones.
pub record IsSession (s : Session) : Type 0 where
  pub mycall_typed : IsTyped s.mycall
  pub dest_typed : IsTyped s.dest
  pub digis_typed : All IsTyped s.digis

Good : Session × List Effect → Type 0
Good r = IsSession r.0

Good-if : (b : Bool) (r r' : Session × List Effect) → Good r → Good r' → Good (if b then r else r')
Good-if true r r' h k = h
Good-if false r r' h k = k

All-if :
    (b : Bool) (as' bs : List Station)
    → All IsTyped as'
    → All IsTyped bs
    → All IsTyped (if b then as' else bs)
All-if true as' bs h k = h
All-if false as' bs h k = k

stations_of-All : (toks : List Bytes) → All IsTyped (stations_of toks)
unfolding stations_of
stations_of-All [] = tt
stations_of-All (tok ∷ toks) =
    let name = trim is_blank tok in
    let rest = stations_of-All toks in
    All-if (is_empty name) (stations_of toks) (from_str name ∷ stations_of toks) rest
      (from_str-IsTyped name, rest)

module _ (s : Session) (h : IsSession s) where
  stay : (running : Bool) (es : List Effect) → Good (record s { running = running }, es)
  unfolding Good
  stay running es = record {
    mycall_typed = h.mycall_typed;
    dest_typed = h.dest_typed;
    digis_typed = h.digis_typed;
  }

  mycall-Good : (text : Bytes) (es : List Effect) → Good (record s { mycall = from_str text }, es)
  unfolding Good
  mycall-Good text es = record {
    mycall_typed = from_str-IsTyped text;
    dest_typed = h.dest_typed;
    digis_typed = h.digis_typed;
  }

  dest-Good : (text : Bytes) (es : List Effect) → Good (record s { dest = from_str text }, es)
  unfolding Good
  dest-Good text es = record {
    mycall_typed = h.mycall_typed;
    dest_typed = from_str-IsTyped text;
    digis_typed = h.digis_typed;
  }

  path-Good : (csv : Bytes) (es : List Effect) → Good (parse_digi_path csv s, es)
  unfolding Good parse_digi_path
  path-Good csv es = record {
    mycall_typed = h.mycall_typed;
    dest_typed = h.dest_typed;
    digis_typed = stations_of-All (fields b',' [] csv);
  }

module _ (ok : Bytes → Bool) (s : Session) (h : IsSession s) where
  txdelay_to-Good : (o : Option ℤ) → Good (txdelay_to ok s o)
  unfolding txdelay_to
  txdelay_to-Good none = stay s h _ _
  txdelay_to-Good (some (pos n)) = Good-if _ _ _ (stay s h _ _) (stay s h _ _)
  txdelay_to-Good (some (negsuc n)) = stay s h _ _

  persist_to-Good : (o : Option ℤ) → Good (persist_to ok s o)
  unfolding persist_to
  persist_to-Good none = stay s h _ _
  persist_to-Good (some (pos n)) = Good-if _ _ _ (stay s h _ _) (stay s h _ _)
  persist_to-Good (some (negsuc n)) = stay s h _ _

  cmd_send-Good : (text : Bytes) → Good (cmd_send ok text s)
  unfolding cmd_send
  cmd_send-Good text = stay s h _ _

  cmd_mycall-Good : (args : Bytes) → Good (cmd_mycall ok args s)
  unfolding cmd_mycall
  cmd_mycall-Good args = Good-if _ _ _ (stay s h _ _) (mycall-Good s h args _)

  cmd_dest-Good : (args : Bytes) → Good (cmd_dest ok args s)
  unfolding cmd_dest
  cmd_dest-Good args = Good-if _ _ _ (stay s h _ _) (dest-Good s h args _)

  dispatch_command-Good : (cmd args : Bytes) → Good (dispatch_command ok cmd args s)
  unfolding dispatch_command cmd_txdelay cmd_persist cmd_digi
  dispatch_command-Good cmd args =
      let is = λ (name : Bytes). bytes_eq cmd name in
      Good-if (is (codes "quit") || is (codes "exit")) _ _ (stay s h false _) (
        Good-if (is (codes "help")) _ _ (stay s h _ _) (
          Good-if (is (codes "status")) _ _ (stay s h _ _) (
            Good-if (is (codes "mycall")) _ _ (cmd_mycall-Good args) (
              Good-if (is (codes "dest")) _ _ (cmd_dest-Good args) (
                Good-if (is (codes "digi")) _ _ (path-Good s h args _) (
                  Good-if (is (codes "txdelay")) _ _ (txdelay_to-Good (stoi args)) (
                    Good-if (is (codes "persist")) _ _ (persist_to-Good (stoi args))
                      (Good-if (is (codes "send")) _ _ (cmd_send-Good args) (stay s h _ _)))))))))

  process_line-Good : (line : Bytes) → Good (process_line ok line s)
  unfolding process_line
  process_line-Good [] = stay s h _ _
  process_line-Good (c ∷ rest) =
      let (cmd, args) = break_at b' ' rest in
      Good-if (c == b'/') _ _ (dispatch_command-Good (map to_lower cmd) (or_nothing args))
        (cmd_send-Good (c ∷ rest))

session_of : (r : Session × List Effect) → Good r → IsSession r.0
unfolding Good
session_of r h = h

relog : (r : Session × List Effect) (es : List Effect) → Good r → Good (r.0, es)
unfolding Good
relog r es h = h

after_line-Good :
    (ok : Bytes → Bool) (r : Session × List Effect) (k : Session → Session × List Effect)
    → Good r
    → ((s : Session) → IsSession s → Good (k s))
    → Good (after_line ok r k)
unfolding after_line
after_line-Good ok (s, es) k h step =
    Good-if s.running _ _ (relog (k s) _ (step s (session_of (s, es) h))) h

input_loop-Good :
    (ok : Bytes → Bool) (lines : List Bytes) (s : Session)
    → IsSession s
    → Good (input_loop ok lines s)
unfolding input_loop
input_loop-Good ok [] s h = stay s h _ []
input_loop-Good ok (l ∷ ls) s h =
    after_line-Good ok (process_line ok l s) (input_loop ok ls) (process_line-Good ok s h l)
      (input_loop-Good ok ls)

-- Through any lines typed into the terminal, its call sign, its destination and its digipeaters stay stations
-- as they are typed: the call signs have neither a dash nor a lower-case letter, and no station is marked as
-- having repeated or as the last one.
pub input_loop-IsSession :
    (ok : Bytes → Bool) (lines : List Bytes) (s : Session)
    → IsSession s
    → IsSession (input_loop ok lines s).0
input_loop-IsSession ok lines s h =
    session_of (input_loop ok lines s) (input_loop-Good ok lines s h)
