-- ===== src/Addr/Wire.antt =====
-- Seven bytes on the wire for an address, read back.
use ax25toolkit.Base.{
  ℕ, zero, suc, ◌-◌, ◌*◌, ◌/◌, ◌<◌, ◌≤◌, Bool, true, false, not, ◌&&◌, [], ◌∷◌, ◌++◌, map, Bytes,
  ◌==◌, if◌then◌else◌, take, get_or, bit_and, length, ◌≡◌, refl, ap, ◌≢◌, arith, All, replicate,
  length-append,
}
use mathlib.Core.Path.{ap₂}
use ax25toolkit.Base.Int.{ℤ, pos, negsuc}
use ax25toolkit.Base.Bits.{holds_below, holds_below-lt}
use ax25toolkit.Base.Text.{trim_end, c_string}
use ax25toolkit.Addr.{Addr, decode, encode, call_field, ssid_byte}

-- A call sign does not end in a space.
abbrev pub EndsPlain : Bytes → Type 0
EndsPlain [] = Unit
EndsPlain (c ∷ []) = c ≢ b' '
EndsPlain (c ∷ (d ∷ cs)) = EndsPlain (d ∷ cs)

abbrev pub IsAscii : ℕ → Type 0
IsAscii c = (0 < c) × (c < 128)

abbrev pub SsidFits : ℤ → Type 0
SsidFits (pos n) = n < 16
SsidFits (negsuc n) = ⊥

-- An address that the wire format can hold: at most six ASCII characters, an SSID from 0 to 15.
pub record IsAddr (a : Addr) : Type 0 where
  pub fits : length a.call ≤ 6
  pub ascii : All IsAscii a.call
  pub plain : EndsPlain a.call
  pub ssid_fits : SsidFits a.ssid

pub length-call_field : (n : ℕ) (cs : Bytes) → length (call_field n cs) ≡ n
unfolding call_field
length-call_field zero cs = refl
length-call_field (suc n) [] = omega (arith, length-call_field n [])
length-call_field (suc n) (c ∷ cs) = omega (arith, length-call_field n cs)

-- An address takes seven bytes.
pub length-encode : (a : Addr) (last : Bool) → length (encode a last) ≡ 7
unfolding encode
length-encode a last =
    omega (
      arith,
      length-append (call_field 6 a.call) (ssid_byte a last ∷ []),
      length-call_field 6 a.call,
    )

char_table : holds_below 128 (λ c. bit_and (bit_and c 0x7F * 2 / 2) 0x7F == c) ≡ true
unfolding holds_below
char_table = refl

char_round : (c : ℕ) → c < 128 → bit_and (bit_and c 0x7F * 2 / 2) 0x7F ≡ c
char_round c h = ground (arith, holds_below-lt 128 _ c char_table h)

sub-zero : (n : ℕ) → n - 0 ≡ n
sub-zero n = omega arith

sub-suc-suc : (m n : ℕ) → suc m - suc n ≡ m - n
sub-suc-suc m n = omega arith

map-call_field :
    (n : ℕ) (cs : Bytes)
    → length cs ≤ n
    → All IsAscii cs
    → map (λ b. bit_and (b / 2) 0x7F) (call_field n cs) ≡ cs ++ replicate (n - length cs) b' '
unfolding call_field
map-call_field zero [] h k = refl
map-call_field zero (c ∷ cs) h k = absurd (omega arith)
map-call_field (suc n) [] h k =
    rw (sub-zero (suc n))
      (ap (◌∷◌ b' ') (rw (sub-zero n) at (map-call_field n [] (omega arith) tt)))
map-call_field (suc n) (c ∷ cs) h k =
    rw (sub-suc-suc n (length cs))
      (ap₂ ◌∷◌ (char_round c k.0.1) (map-call_field n cs (omega arith) k.1))

trim_end-replicate : (n : ℕ) → trim_end (replicate n b' ') ≡ []
unfolding trim_end
trim_end-replicate zero = refl
trim_end-replicate (suc n) = ground (arith, trim_end-replicate n)

trim_end-padded : (cs : Bytes) (n : ℕ) → EndsPlain cs → trim_end (cs ++ replicate n b' ') ≡ cs
unfolding trim_end
trim_end-padded [] n h = trim_end-replicate n
trim_end-padded (c ∷ []) n h = ground (arith, trim_end-replicate n)
trim_end-padded (c ∷ (d ∷ cs)) n h = ground (arith, trim_end-padded (d ∷ cs) n h)

pub c_string_ascii : (cs : Bytes) → All IsAscii cs → c_string cs ≡ cs
unfolding c_string
c_string_ascii [] h = refl
c_string_ascii (c ∷ cs) h = ground (arith, c_string_ascii cs h.1)

abbrev numbered : ℕ → Bool → Addr
numbered n r = record { call = []; ssid = pos n; repeated = r }

abbrev byte_holds : ℕ → Bool → Bool → Bool
byte_holds n r l =
    (bit_and (ssid_byte (numbered n r) l / 2) 0x0F == n)
    && (bit_and (ssid_byte (numbered n r) l) 0x80 == (if r then 0x80 else 0))
    && (bit_and (ssid_byte (numbered n r) l) 0x01 == (if l then 1 else 0))

ssid_table : (r l : Bool) → holds_below 16 (λ n. byte_holds n r l) ≡ true
unfolding holds_below ssid_byte
ssid_table true true = refl
ssid_table true false = refl
ssid_table false true = refl
ssid_table false false = refl

ssid_byte_fields :
    (a : Addr) (k : ℤ) (l : Bool)
    → a.ssid ≡ k
    → SsidFits k
    → (pos (bit_and (ssid_byte a l / 2) 0x0F) ≡ k)
      × (not (bit_and (ssid_byte a l) 0x80 == 0) ≡ a.repeated)
      × (bit_and (ssid_byte a l) 0x01 ≡ (if l then 1 else 0))
unfolding ssid_byte
ssid_byte_fields a (pos n) l e h = ground (arith, holds_below-lt 16 _ n (ssid_table a.repeated l) h)
ssid_byte_fields a (negsuc n) l e h = absurd h

call_field_split :
    (n : ℕ) (cs : Bytes) (b : ℕ)
    → (take n (call_field n cs ++ b ∷ []) ≡ call_field n cs)
      × (get_or (call_field n cs ++ b ∷ []) n 0 ≡ b)
unfolding call_field
call_field_split zero cs b = (refl, refl)
call_field_split (suc n) [] b = let r = call_field_split n [] b in (ap (◌∷◌ (b' ' * 2)) r.0, r.1)
call_field_split (suc n) (c ∷ cs) b =
    let r = call_field_split n cs b in (ap (◌∷◌ (bit_and c 0x7F * 2)) r.0, r.1)

decode_fields :
    (a : Addr) (last : Bool)
    → (take 6 (encode a last) ≡ call_field 6 a.call)
      × (get_or (encode a last) 6 0 ≡ ssid_byte a last)
unfolding encode
decode_fields a last = call_field_split 6 a.call (ssid_byte a last)

decode_call :
    (a : Addr)
    → IsAddr a
    → c_string (trim_end (map (λ b. bit_and (b / 2) 0x7F) (call_field 6 a.call))) ≡ a.call
decode_call a v =
    rw (map-call_field 6 a.call v.fits v.ascii, trim_end-padded a.call (6 - length a.call) v.plain)
      (c_string_ascii a.call v.ascii)

-- An address that fits the wire format is read back as it was written.
pub decode-encode_addr : (a : Addr) (last : Bool) → IsAddr a → decode (encode a last) ≡ a
unfolding decode
decode-encode_addr a last v =
    ground (
      arith,
      decode_fields a last,
      decode_call a v,
      ssid_byte_fields a a.ssid last refl v.ssid_fits,
    )

-- The lowest bit of the seventh byte marks the last address.
pub encode_last :
    (a : Addr) (last : Bool)
    → IsAddr a
    → bit_and (get_or (encode a last) 6 0) 0x01 ≡ (if last then 1 else 0)
encode_last a last v =
    rw ((decode_fields a last).1) ((ssid_byte_fields a a.ssid last refl v.ssid_fits).2)
