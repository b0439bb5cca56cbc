-- ===== src/Hdlc/Stuffing.antt =====
-- Bit stuffing, undone by the decoder.
use ax25toolkit.Base.{
  ℕ, zero, suc, ◌+◌, ◌*◌, ◌<◌, ◌≤◌, ◌≡◌, refl, ap, ◌∙◌, arith, Bool, true, false, List, [], ◌∷◌,
  ◌++◌, append_assoc, append-nil, Bytes, All, ◌==◌, ==_iff, Bool-cases, inl, inr, subst, length,
  length-append, if◌then◌else◌,
}
use ax25toolkit.Base.Bits.{holds_below, holds_below-lt}
use ax25toolkit.Hdlc.{Decoder, shift_in, receive_bit, receive, byte_bits, bit_of, max_frame, flag}
use ax25toolkit.Hdlc.Sync.{Partial, Synced, add_bit, zero_bit, one_bit, stuffed_zero}

-- The bits on the line for `bits`, behind `k` ones.
unfoldable pub stuff : ℕ → List Bool → List Bool
stuff k [] = []
stuff k (false ∷ bs) = false ∷ stuff 0 bs
stuff k (true ∷ bs) =
    let full = true ∷ (false ∷ stuff 0 bs) in
    let more = true ∷ stuff (suc k) bs in if k == 4 then full else more

-- The ones at the end of what is on the line.
unfoldable pub ones_after : ℕ → List Bool → ℕ
ones_after k [] = k
ones_after k (false ∷ bs) = ones_after 0 bs
ones_after k (true ∷ bs) =
    let full = ones_after 0 bs in let more = ones_after (suc k) bs in if k == 4 then full else more

pub add_bits : List Bool → Partial → Partial
add_bits [] a = a
add_bits (b ∷ bs) a = add_bits bs (add_bit b a)

abbrev pub bits_held : Partial → ℕ
bits_held a = a.olen + 8 * length a.buf

add_bit_held :
    (b : Bool) (a : Partial)
    → a.olen < 8
    → (bits_held (add_bit b a) ≡ bits_held a + 1) × ((add_bit b a).olen < 8)
unfolding add_bit
add_bit_held b a h = ground (arith, length-append a.buf (shift_in b a.oacc ∷ []))

-- The decoder in step after some bits, with no frame completed.
pub record Reads (k : ℕ) (a : Partial) (r : Decoder × List Bytes) : Type 0 where
  pub step : Synced k r.0 a
  pub silent : r.1 ≡ []
  pub few : k < 5

pub receive_stuffed :
    (bits : List Bool) (k : ℕ) (d : Decoder) (a : Partial)
    → k < 5
    → Synced k d a
    → a.olen < 8
    → bits_held a + length bits ≤ 8 * max_frame
    → Reads (ones_after k bits) (add_bits bits a) (receive (stuff k bits) d)
unfolding stuff ones_after add_bits receive
receive_stuffed [] k d a h s o room = record { step = s; silent = refl; few = h }
receive_stuffed (false ∷ bs) k d a h s o room =
    let q = zero_bit k d a h s (omega arith) in
    let e = add_bit_held false a o in
    let ih =
      receive_stuffed bs 0 (receive_bit false d).0 (add_bit false a) (omega arith) q.0 e.1
        (omega (arith, e.0)) in
    record { step = ih.step; silent = rw (q.1, ih.silent) refl; few = ih.few }
receive_stuffed (true ∷ bs) k d a h s o room =
    let q = one_bit k d a h s (omega arith) in
    let e = add_bit_held true a o in
    let d1 = (receive_bit true d).0 in
    elim (Bool-cases (k == 4)) [
      | inl full ↦
          let z = stuffed_zero d1 (add_bit true a) (
            subst (λ (x : ℕ). Synced x d1 (add_bit true a)) (omega (arith, (==_iff k 4).0 full))
              q.0) in
          let ih =
            receive_stuffed bs 0 (receive_bit false d1).0 (add_bit true a) (omega arith) z.0 e.1
              (omega (arith, e.0)) in
          rw full (record { step = ih.step; silent = rw (q.1, z.1, ih.silent) refl; few = ih.few })
      | inr more ↦
          let few : suc k < 5 = ground (arith, more) in
          let ih =
            receive_stuffed bs (suc k) d1 (add_bit true a) few q.0 e.1 (omega (arith, e.0)) in
          rw more (record { step = ih.step; silent = rw (q.1, ih.silent) refl; few = ih.few })
    ]

pub receive-append :
    (xs ys : List Bool) (d : Decoder)
    → receive (xs ++ ys) d
      ≡ ((receive ys (receive xs d).0).0, (receive xs d).1 ++ (receive ys (receive xs d).0).1)
unfolding receive
receive-append [] ys d = refl
receive-append (x ∷ xs) ys d = ground (
  arith,
  receive-append xs ys (receive_bit x d).0,
  append_assoc (receive_bit x d).1 (receive xs (receive_bit x d).0).1
      (receive ys (receive xs (receive_bit x d).0).0).1,
)

-- Eight bits read from the empty register, least significant first.
assemble : List Bool → ℕ → ℕ
assemble [] acc = acc
assemble (b ∷ bs) acc = assemble bs (shift_in b acc)

byte_table : holds_below 256 (λ b. assemble (byte_bits b) 0 == b) ≡ true
unfolding holds_below assemble
byte_table = refl

add_bits_eight :
    (b0 b1 b2 b3 b4 b5 b6 b7 : Bool) (rest : List Bool) (buf : Bytes)
    → let bits = b0 ∷ b1 ∷ b2 ∷ b3 ∷ b4 ∷ b5 ∷ b6 ∷ b7 ∷ [] in
      add_bits (bits ++ rest) (record { olen = 0; oacc = 0; buf = buf })
      ≡ add_bits rest (record { olen = 0; oacc = 0; buf = buf ++ assemble bits 0 ∷ [] })
unfolding add_bits add_bit assemble
add_bits_eight b0 b1 b2 b3 b4 b5 b6 b7 rest buf = refl

-- Whole bytes, and no bit of the next.
abbrev pub holding : Bytes → Partial
holding buf = record { olen = 0; oacc = 0; buf = buf }

abbrev pub all_bits : Bytes → List Bool
all_bits [] = []
all_bits (b ∷ bs) = byte_bits b ++ all_bits bs

abbrev pub flags : ℕ → List Bool
flags zero = []
flags (suc n) = byte_bits flag ++ flags n

abbrev pub IsByte : ℕ → Type 0
IsByte b = b < 256

pub add_bits_bytes :
    (bs buf : Bytes)
    → All IsByte bs
    → add_bits (all_bits bs) (record { olen = 0; oacc = 0; buf = buf })
      ≡ record { olen = 0; oacc = 0; buf = buf ++ bs }
unfolding add_bits
add_bits_bytes [] buf h = rw (append-nil buf)
add_bits_bytes (b ∷ bs) buf h =
    let e : assemble (byte_bits b) 0 ≡ b = (==_iff _ b).0 (holds_below-lt 256 _ b byte_table h.0) in
    add_bits_eight (bit_of b 0) (bit_of b 1) (bit_of b 2) (bit_of b 3) (bit_of b 4) (bit_of b 5)
      (bit_of b 6) (bit_of b 7) (all_bits bs) buf
    ∙ (ap (λ (x : ℕ). add_bits (all_bits bs) (record { olen = 0; oacc = 0; buf = buf ++ x ∷ [] })) e
        ∙ (add_bits_bytes bs (buf ++ b ∷ []) h.1
            ∙ ap (λ (x : Bytes). holding x) (append_assoc buf (b ∷ []) bs)))
