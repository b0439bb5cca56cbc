-- ===== src/Frame/Control.antt =====
-- The control byte: what the helpers build is what `type`, `get_ns`, `get_nr` and `get_pf` read.
use ax25toolkit.Base.{
  ℕ, ◌/◌, ◌^◌, ◌<◌, Bool, true, false, ◌&&◌, ◌==◌, ltb, ◌≡◌, refl, arith, bit_and,
}
use ax25toolkit.Base.Bits.{holds_below, holds_below-lt, bit_and_seven}
use ax25toolkit.Frame.{
  FrameType, i_frame, rr, rej, pf_of, mk_i, mk_rr, mk_rej, type_of, ns_of, nr_of, pf_set,
}

-- The fields that a receiver reads from a control byte.
pub record Fields (ctrl : ℕ) (t : FrameType) (nr : ℕ) (p : Bool) : Type 0 where
  pub type_is : type_of ctrl ≡ t
  pub nr_is : nr_of ctrl ≡ nr
  pub pf_is : pf_set ctrl ≡ p
  pub is_byte : ctrl < 256

abbrev is_i_frame : FrameType → Bool
is_i_frame i_frame = true
is_i_frame _ = false

abbrev is_rr : FrameType → Bool
is_rr rr = true
is_rr _ = false

abbrev is_rej : FrameType → Bool
is_rej rej = true
is_rej _ = false

abbrev fields_hold : (FrameType → Bool) → ℕ → ℕ → Bool → Bool
fields_hold is_t ctrl nr p =
    is_t (type_of ctrl) && (nr_of ctrl == nr) && (bit_and ctrl 0x10 == pf_of p) && ltb ctrl 256

mk_i_table :
    (p : Bool)
    → holds_below 8 (λ ns.
      holds_below 8
        (λ nr. fields_hold is_i_frame (mk_i ns nr p) nr p && (ns_of (mk_i ns nr p) == ns)))
      ≡ true
unfolding holds_below mk_i type_of nr_of ns_of
mk_i_table true = refl
mk_i_table false = refl

mk_rr_table : (p : Bool) → holds_below 8 (λ nr. fields_hold is_rr (mk_rr nr p) nr p) ≡ true
unfolding holds_below mk_rr type_of nr_of
mk_rr_table true = refl
mk_rr_table false = refl

mk_rej_table : (p : Bool) → holds_below 8 (λ nr. fields_hold is_rej (mk_rej nr p) nr p) ≡ true
unfolding holds_below mk_rej type_of nr_of
mk_rej_table true = refl
mk_rej_table false = refl

-- An I frame carries both sequence numbers and the P bit.
pub mk_i-Fields :
    (ns nr : ℕ) (p : Bool)
    → ns < 8
    → nr < 8
    → (ns_of (mk_i ns nr p) ≡ ns) × Fields (mk_i ns nr p) i_frame nr p
unfolding pf_set
mk_i-Fields ns nr p hs hr =
    ground (arith, holds_below-lt 8 _ nr (holds_below-lt 8 _ ns (mk_i_table p) hs) hr)

pub mk_rr-Fields : (nr : ℕ) (p : Bool) → nr < 8 → Fields (mk_rr nr p) rr nr p
unfolding pf_set
mk_rr-Fields nr p h = ground (arith, holds_below-lt 8 _ nr (mk_rr_table p) h)

pub mk_rej-Fields : (nr : ℕ) (p : Bool) → nr < 8 → Fields (mk_rej nr p) rej nr p
unfolding pf_set
mk_rej-Fields nr p h = ground (arith, holds_below-lt 8 _ nr (mk_rej_table p) h)

pub nr_of-lt : (ctrl : ℕ) → nr_of ctrl < 8
unfolding nr_of
nr_of-lt ctrl = omega (arith, bit_and_seven (ctrl / 2 ^ 5))

pub ns_of-lt : (ctrl : ℕ) → ns_of ctrl < 8
unfolding ns_of
ns_of-lt ctrl = omega (arith, bit_and_seven (ctrl / 2))
