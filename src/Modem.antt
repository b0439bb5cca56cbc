-- ===== src/Modem.antt =====
-- The modem program kiss_modem/kiss_modem.cpp and its 9600 Bd scrambler in kiss_modem/modem.cpp: the frames that
-- wait for the channel, what a KISS frame from the host does, and the bits on the air.
pub mod Queue
pub mod Scrambler
use ax25toolkit.Base.{
  ℕ, zero, suc, ◌+◌, ◌-◌, ◌*◌, ◌/◌, ◌%◌, ◌^◌, Bool, true, false, not, ◌&&◌, ◌||◌, List, [], ◌∷◌,
  ◌++◌, Bytes, ◌==◌, ltb, if◌then◌else◌, Option, none, some, is_empty, length, take, drop, get_or,
  bit_and, bit_xor,
}
use ax25toolkit.Base.Text.{bytes_eq}
use ax25toolkit.Kiss.{Frame}
use ax25toolkit.Kiss.Cmd.{data_frame, tx_delay, persistence, slot_time, tx_tail}

-- The loop over the last bytes of the address blocks from `j` on: the offset of the control byte.
unfoldable pub ctrl_offset : ℕ → ℕ → Bytes → Option ℕ
ctrl_offset zero j frame = none
ctrl_offset (suc fuel) j frame =
    let rest = ctrl_offset fuel (j + 7) frame in
    if not (ltb j (length frame)) || not (ltb j 70)
    then none
    else if bit_and (get_or frame j 0) 0x01 == 0
    then rest
    else some (j + 1)

-- Both control bytes are there, are those of S frames, and the address blocks are equal.
unfoldable pub same_link : Bytes → Bytes → Option ℕ → Option ℕ → Bool
unfolding bytes_eq
same_link queued incoming none i_ctrl = false
same_link queued incoming (some q) none = false
same_link queued incoming (some q) (some i) =
    q == i
    && (ltb q (length queued) && ltb i (length incoming))
    && (bit_and (get_or queued q 0) 0x03 == 0x01 && bit_and (get_or incoming i 0) 0x03 == 0x01)
    && bytes_eq (take q queued) (take q incoming)

-- Ten rounds of the loop reach the bound of 70.
unfoldable pub can_supersede : Bytes → Bytes → Bool
can_supersede queued incoming =
    if ltb (length queued) 15 || ltb (length incoming) 15
    then false
    else same_link queued incoming (ctrl_offset 11 6 queued) (ctrl_offset 11 6 incoming)

-- `enqueue_frame`
unfoldable pub enqueue_frame : Bytes → List Bytes → List Bytes
enqueue_frame incoming [] = incoming ∷ []
enqueue_frame incoming (queued ∷ tx_queue) =
    let rest = enqueue_frame incoming tx_queue in
    if can_supersede queued incoming then incoming ∷ tx_queue else queued ∷ rest

-- The parameters of channel access, and the queue.
pub record Station : Type 0 where
  pub txdelay : ℕ
  pub persist : ℕ
  pub slottime : ℕ
  pub txtail : ℕ
  pub tx_queue : List Bytes

with_value : Bytes → (ℕ → Station) → Station → Station
with_value [] f s = s
with_value (v ∷ vs) f s = f v

-- A KISS frame from the host: data is queued, and a parameter is set.
unfoldable pub take_frame : Frame → Station → Station
unfolding with_value
take_frame kf s =
    if kf.command == data_frame && not (is_empty kf.payload)
    then record s { tx_queue = enqueue_frame kf.payload s.tx_queue }
    else if kf.command == tx_delay
    then with_value kf.payload (λ v. record s { txdelay = v }) s
    else if kf.command == persistence
    then with_value kf.payload (λ v. record s { persist = v }) s
    else if kf.command == slot_time
    then with_value kf.payload (λ v. record s { slottime = v }) s
    else if kf.command == tx_tail
    then with_value kf.payload (λ v. record s { txtail = v }) s
    else s

unfoldable pub take_frames : List Frame → Station → Station
take_frames [] s = s
take_frames (kf ∷ kfs) s = take_frames kfs (take_frame kf s)

-- `scramble` and `descramble`: the bit that comes out for `x`; a state is the pattern of an `int` of 32 bits.
unfoldable pub mixed : ℕ → ℕ → ℕ
mixed x state = bit_and (bit_xor (bit_xor x (state / 2 ^ 16)) (state / 2 ^ 11)) 1

abbrev pub shifted : ℕ → ℕ → ℕ
shifted x state = (state * 2 + bit_and x 1) % 2 ^ 32

unfoldable pub scramble : ℕ → ℕ → ℕ × ℕ
unfolding mixed
scramble x state = (mixed x state, shifted (mixed x state) state)

unfoldable pub descramble : ℕ → ℕ → ℕ × ℕ
unfolding mixed
descramble x state = (mixed x state, shifted x state)

-- Bit after bit, as `put_9600_bit` and `nudge_pll` do.
unfoldable pub scramble_all : ℕ → List ℕ → List ℕ
scramble_all state [] = []
scramble_all state (x ∷ xs) = let (y, state') = scramble x state in y ∷ scramble_all state' xs

unfoldable pub descramble_all : ℕ → List ℕ → List ℕ
descramble_all state [] = []
descramble_all state (y ∷ ys) = let (x, state') = descramble y state in x ∷ descramble_all state' ys
