-- ===== src/Frame/RoundTrip.antt =====
-- `decode` reads back what `encode` wrote.
use ax25toolkit.Base.{
  Bool, true, false, ◌≡◌, refl, arith, ap, ◌∙◌, if◌then◌else◌, List, [], ◌∷◌, ◌++◌, Bytes, All,
  length, length-append, take, drop, get_or, is_empty, take-append, drop-append, get_or-append,
  get_or-append_left, some, append_assoc, ltb,
}
use ax25toolkit.Addr
use ax25toolkit.Addr.{Addr}
use ax25toolkit.Addr.Wire.{IsAddr, length-encode, decode-encode_addr, encode_last}
use ax25toolkit.Frame.{
  Frame, no_frame, type_of, is_last, decode_digis, carries_pid, decode, encode_digis, encode,
}

-- A frame that the wire format can hold: its addresses are, and a PID is there exactly for I and UI
-- frames.
pub record IsFrame (f : Frame) : Type 0 where
  pub dest_fits : IsAddr f.dest
  pub src_fits : IsAddr f.src
  pub digis_fit : All IsAddr f.digis
  pub pid_there : f.has_pid ≡ carries_pid (type_of f.ctrl)
  pub pid_default : f.has_pid ≡ false → f.pid ≡ 0xF0

-- Seven bytes at the head of `rest` are taken off by one round of the loop.
decode_digis_round :
    (xs rest : Bytes)
    → length xs ≡ 7
    → decode_digis false (xs ++ rest) ≡ (
      Addr.decode xs ∷ (decode_digis (is_last (get_or xs 6 0)) rest).0,
      (decode_digis (is_last (get_or xs 6 0)) rest).1,
    )
unfolding decode_digis
decode_digis_round (b0 ∷ b1 ∷ b2 ∷ b3 ∷ b4 ∷ b5 ∷ b6 ∷ []) rest h = refl
decode_digis_round (b0 ∷ b1 ∷ b2 ∷ b3 ∷ b4 ∷ b5 ∷ b6 ∷ b7 ∷ r) rest h = absurd (omega arith)
decode_digis_round (b0 ∷ b1 ∷ b2 ∷ b3 ∷ b4 ∷ b5 ∷ []) rest h = absurd (omega arith)
decode_digis_round (b0 ∷ b1 ∷ b2 ∷ b3 ∷ b4 ∷ []) rest h = absurd (omega arith)
decode_digis_round (b0 ∷ b1 ∷ b2 ∷ b3 ∷ []) rest h = absurd (omega arith)
decode_digis_round (b0 ∷ b1 ∷ b2 ∷ []) rest h = absurd (omega arith)
decode_digis_round (b0 ∷ b1 ∷ []) rest h = absurd (omega arith)
decode_digis_round (b0 ∷ []) rest h = absurd (omega arith)
decode_digis_round [] rest h = absurd (omega arith)

is_last-encode :
    (a : Addr) (last : Bool) → IsAddr a → is_last (get_or (Addr.encode a last) 6 0) ≡ last
is_last-encode a true v = ground (arith, encode_last a true v)
is_last-encode a false v = ground (arith, encode_last a false v)

decode_digis-encode_digis :
    (ds : List Addr) (rest : Bytes)
    → All IsAddr ds
    → decode_digis (is_empty ds) (encode_digis ds ++ rest) ≡ (ds, rest)
unfolding decode_digis encode_digis
decode_digis-encode_digis [] rest h = refl
decode_digis-encode_digis (d ∷ ds) rest h =
    rw
      (
        append_assoc (Addr.encode d (is_empty ds)) (encode_digis ds) rest,
        decode_digis_round (Addr.encode d (is_empty ds)) (encode_digis ds ++ rest)
            (length-encode d (is_empty ds)),
        is_last-encode d (is_empty ds) h.0,
        decode-encode_addr d (is_empty ds) h.0,
        decode_digis-encode_digis ds rest h.1,
      )
      refl

-- What `decode` finds at the head of two addresses and the bytes behind them.
record HeadOf (e1 e2 rest raw : Bytes) : Type 0 where
  long : ltb (length raw) 14 ≡ false
  flag : get_or raw 13 0 ≡ get_or e2 6 0
  first : take 7 raw ≡ e1
  second : take 7 (drop 7 raw) ≡ e2
  behind : drop 14 raw ≡ rest

head_of :
    (e1 e2 rest : Bytes) → length e1 ≡ 7 → length e2 ≡ 7 → HeadOf e1 e2 rest (e1 ++ (e2 ++ rest))
head_of e1 e2 rest h1 h2 = record {
  long = ground (arith, length-append e1 (e2 ++ rest), length-append e2 rest);
  flag =
      get_or-append 13 6 e1 (e2 ++ rest) 0 (omega arith)
      ∙ get_or-append_left 6 e2 rest 0 (omega arith);
  first = take-append 7 e1 (e2 ++ rest) h1;
  second = ap (take 7) (drop-append 7 0 e1 (e2 ++ rest) (omega arith)) ∙ take-append 7 e2 rest h2;
  behind = drop-append 14 7 e1 (e2 ++ rest) (omega arith) ∙ drop-append 7 0 e2 rest (omega arith);
}

abbrev tail_of : Frame → Bytes
tail_of f = f.ctrl ∷ ((if f.has_pid then f.pid ∷ [] else []) ++ f.info)

-- A frame that fits the wire format is read back as it was written, digipeaters included.
pub decode-encode : (f : Frame) → IsFrame f → decode (encode f) no_frame ≡ some f
unfolding decode encode
decode-encode f v =
    let e1 = Addr.encode f.dest false in
    let e2 = Addr.encode f.src (is_empty f.digis) in
    let rest = encode_digis f.digis ++ tail_of f in
    let hd =
      head_of e1 e2 rest (length-encode f.dest false) (length-encode f.src (is_empty f.digis)) in
    rw
      (
        hd.flag,
        hd.first,
        hd.second,
        hd.behind,
        is_last-encode f.src (is_empty f.digis) v.src_fits,
        decode_digis-encode_digis f.digis (tail_of f) v.digis_fit,
        decode-encode_addr f.dest false v.dest_fits,
        decode-encode_addr f.src (is_empty f.digis) v.src_fits,
      )
      (ground (arith, hd.long, v.pid_default))
