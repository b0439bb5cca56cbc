-- ===== src/Hdlc/Sync.antt =====
-- A decoder in step with the sender: the ones it has counted stand at the top of its register.
use ax25toolkit.Base.{
  ℕ, zero, suc, ◌+◌, ◌*◌, ◌/◌, ◌<◌, ◌≡◌, refl, arith, Bool, true, false, [], ◌∷◌, ◌++◌, Bytes, leb,
  ◌==◌, length, if◌then◌else◌, bit_or,
}
use ax25toolkit.Base.Bits.{holds_below, holds_below-lt}
use ax25toolkit.Hdlc.{Decoder, shift_in, receive_one, receive_zero, receive_bit, max_frame}

top_table : holds_below 128 (λ x. bit_or x 0x80 == x + 128) ≡ true
unfolding holds_below
top_table = refl

pub bit_or_top : (x : ℕ) → x < 128 → bit_or x 0x80 ≡ x + 128
bit_or_top x h = ground (arith, holds_below-lt 128 _ x top_table h)

-- The register ends in a zero and `k` ones behind it.
abbrev pub Trail : ℕ → ℕ → Type 0
Trail zero p = p < 128
Trail (suc zero) p = p / 64 ≡ 2
Trail (suc (suc zero)) p = p / 32 ≡ 6
Trail (suc (suc (suc zero))) p = p / 16 ≡ 14
Trail (suc (suc (suc (suc zero)))) p = p / 8 ≡ 30
Trail (suc (suc (suc (suc (suc k))))) p = (k ≡ 0) × (p / 4 ≡ 62)

-- What has been read of a frame: the bits of the byte at hand, and the bytes before it.
pub record Partial : Type 0 where
  pub olen : ℕ
  pub oacc : ℕ
  pub buf : Bytes

pub record Synced (k : ℕ) (d : Decoder) (a : Partial) : Type 0 where
  pub collects : d.collecting ≡ true
  pub ones_are : d.consecutive_ones ≡ k
  pub trail : Trail k d.pat_det
  pub olen_is : d.olen ≡ a.olen
  pub oacc_is : d.oacc ≡ a.oacc
  pub buf_is : d.frame_buf ≡ a.buf

unfoldable pub add_bit : Bool → Partial → Partial
add_bit bit a =
    let oacc = shift_in bit a.oacc in
    if leb 8 (a.olen + 1)
    then record { olen = 0; oacc = 0; buf = a.buf ++ oacc ∷ [] }
    else record { olen = a.olen + 1; oacc = oacc; buf = a.buf }

pub zero_bit :
    (k : ℕ) (d : Decoder) (a : Partial)
    → k < 5
    → Synced k d a
    → a.olen + 8 * length a.buf < 8 * max_frame + 7
    → let r = receive_bit false d in Synced 0 r.0 (add_bit false a) × (r.1 ≡ [])
unfolding receive_bit receive_zero add_bit
zero_bit zero d a h s room = ground arith
zero_bit (suc zero) d a h s room = ground arith
zero_bit (suc (suc zero)) d a h s room = ground arith
zero_bit (suc (suc (suc zero))) d a h s room = ground arith
zero_bit (suc (suc (suc (suc zero)))) d a h s room = ground arith
zero_bit (suc (suc (suc (suc (suc k))))) d a h s room = absurd (omega arith)

pub one_bit :
    (k : ℕ) (d : Decoder) (a : Partial)
    → k < 5
    → Synced k d a
    → a.olen + 8 * length a.buf < 8 * max_frame + 7
    → let r = receive_bit true d in Synced (suc k) r.0 (add_bit true a) × (r.1 ≡ [])
unfolding receive_bit receive_one add_bit
one_bit zero d a h s room = ground (arith, bit_or_top (d.pat_det / 2))
one_bit (suc zero) d a h s room = ground (arith, bit_or_top (d.pat_det / 2))
one_bit (suc (suc zero)) d a h s room = ground (arith, bit_or_top (d.pat_det / 2))
one_bit (suc (suc (suc zero))) d a h s room = ground (arith, bit_or_top (d.pat_det / 2))
one_bit (suc (suc (suc (suc zero)))) d a h s room = ground (arith, bit_or_top (d.pat_det / 2))
one_bit (suc (suc (suc (suc (suc k))))) d a h s room = absurd (omega arith)

-- The zero behind five ones is dropped.
pub stuffed_zero :
    (d : Decoder) (a : Partial)
    → Synced 5 d a
    → let r = receive_bit false d in Synced 0 r.0 a × (r.1 ≡ [])
unfolding receive_bit receive_zero
stuffed_zero d a s = ground arith
