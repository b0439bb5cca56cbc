-- ===== src/Modem/Queue.antt =====
-- The queue of frames that wait for the channel: which frames supersession may replace.
use ax25toolkit.Base.{
  ℕ, suc, ◌+◌, ◌≤◌, ◌≡◌, refl, sym, ◌∙◌, ap, Bool, true, false, not, ◌&&◌, ◌||◌, List, [], ◌∷◌,
  ◌++◌, append-nil, append_assoc, Bytes, ◌==◌, ltb, if◌then◌else◌, Bool-cases, inl, inr, Option,
  none, some, is_empty, length, get_or, bit_and, arith,
}
use ax25toolkit.Kiss.{Frame}
use ax25toolkit.Kiss.Cmd.{data_frame, tx_delay, persistence, slot_time, tx_tail}
use ax25toolkit.Modem.{
  Station, ctrl_offset, same_link, can_supersede, enqueue_frame, with_value, take_frame,
  take_frames,
}

abbrev is_s_at : Bytes → Option ℕ → Bool
is_s_at frame none = false
is_s_at frame (some q) = bit_and (get_or frame q 0) 0x03 == 0x01

-- A supervisory frame: the two low bits of its control byte, behind its addresses, are 01.
unfoldable pub is_s_frame : Bytes → Bool
is_s_frame frame = is_s_at frame (ctrl_offset 11 6 frame)

-- All other frames of a queue, in their order.
unfoldable pub others : List Bytes → List Bytes
others [] = []
others (f ∷ fs) = if is_s_frame f then others fs else f ∷ others fs

same_link_s :
    (queued incoming : Bytes) (q i : Option ℕ)
    → same_link queued incoming q i ≡ true
    → (is_s_at queued q ≡ true) × (is_s_at incoming i ≡ true)
unfolding same_link
same_link_s queued incoming none i h = absurd (ground (arith, h))
same_link_s queued incoming (some q) none h = absurd (ground (arith, h))
same_link_s queued incoming (some q) (some i) h = ground (arith, h)

unless : (c b : Bool) → (if c then false else b) ≡ true → b ≡ true
unless true b h = absurd (ground (arith, h))
unless false b h = h

can_supersede_s :
    (queued incoming : Bytes)
    → can_supersede queued incoming ≡ true
    → (is_s_frame queued ≡ true) × (is_s_frame incoming ≡ true)
unfolding can_supersede is_s_frame
can_supersede_s queued incoming h =
    same_link_s queued incoming (ctrl_offset 11 6 queued) (ctrl_offset 11 6 incoming)
      (unless (ltb (length queued) 15 || ltb (length incoming) 15) _ h)

if_append :
    (b : Bool) (x : Bytes) (xs ys : List Bytes)
    → (if b then xs ++ ys else x ∷ (xs ++ ys)) ≡ (if b then xs else x ∷ xs) ++ ys
if_append true x xs ys = refl
if_append false x xs ys = refl

others-enqueue_frame :
    (incoming : Bytes) (tx_queue : List Bytes)
    → others (enqueue_frame incoming tx_queue)
      ≡ others tx_queue ++ (if is_s_frame incoming then [] else incoming ∷ [])
unfolding enqueue_frame others
others-enqueue_frame incoming [] = refl
others-enqueue_frame incoming (queued ∷ tx_queue) =
    elim (Bool-cases (can_supersede queued incoming)) [
      | inl e ↦
          let s = can_supersede_s queued incoming e in
          rw (e, s.0, s.1) (sym (append-nil (others tx_queue)))
      | inr e ↦
          rw (e, others-enqueue_frame incoming tx_queue)
            (if_append (is_s_frame queued) queued (others tx_queue)
              (if is_s_frame incoming then [] else incoming ∷ []))
    ]

length-enqueue_frame :
    (incoming : Bytes) (tx_queue : List Bytes)
    → length (enqueue_frame incoming tx_queue) ≤ suc (length tx_queue)
unfolding enqueue_frame
length-enqueue_frame incoming [] = omega arith
length-enqueue_frame incoming (queued ∷ tx_queue) =
    ground (arith, length-enqueue_frame incoming tx_queue)

-- The frames of the host that are to be sent.
abbrev pub data_of : List Frame → List Bytes
data_of [] = []
data_of (kf ∷ kfs) =
    if kf.command == data_frame && not (is_empty kf.payload)
    then kf.payload ∷ data_of kfs
    else data_of kfs

append-others :
    (xs : List Bytes) (b : Bool) (x : Bytes) (ys : List Bytes)
    → (xs ++ (if b then [] else x ∷ [])) ++ ys ≡ xs ++ (if b then ys else x ∷ ys)
append-others xs true x ys = ap (λ zs. zs ++ ys) (append-nil xs)
append-others xs false x ys = append_assoc xs (x ∷ []) ys

take_frame_data :
    (kf : Frame) (s : Station)
    → (kf.command == data_frame && not (is_empty kf.payload)) ≡ true
    → (take_frame kf s).tx_queue ≡ enqueue_frame kf.payload s.tx_queue
unfolding take_frame
take_frame_data kf s h = rw h refl

with_value_queue :
    (vs : Bytes) (f : ℕ → Station) (s : Station)
    → ((v : ℕ) → (f v).tx_queue ≡ s.tx_queue)
    → (with_value vs f s).tx_queue ≡ s.tx_queue
unfolding with_value
with_value_queue [] f s h = refl
with_value_queue (v ∷ vs) f s h = h v

either :
    (b : Bool) (s t : Station) (q : List Bytes)
    → s.tx_queue ≡ q
    → t.tx_queue ≡ q
    → (if b then s else t).tx_queue ≡ q
either true s t q h k = h
either false s t q h k = k

take_frame_other :
    (kf : Frame) (s : Station)
    → (kf.command == data_frame && not (is_empty kf.payload)) ≡ false
    → (take_frame kf s).tx_queue ≡ s.tx_queue
unfolding take_frame
take_frame_other kf s h = rw h (
    either (kf.command == tx_delay) _ _ s.tx_queue (with_value_queue kf.payload _ s (λ v. refl)) (
      either (kf.command == persistence) _ _ s.tx_queue
        (with_value_queue kf.payload _ s (λ v. refl))
        (either (kf.command == slot_time) _ _ s.tx_queue
          (with_value_queue kf.payload _ s (λ v. refl))
          (either (kf.command == tx_tail) _ _ s.tx_queue
            (with_value_queue kf.payload _ s (λ v. refl)) refl))))

-- Superseding loses no data: while frames from the host are queued, all frames but supervisory ones stay in the
-- queue, in the order in which they came, behind those that waited before. Parameters and empty frames
-- queue nothing, and the queue grows by one frame at most for each data frame.
pub take_frames-others :
    (kfs : List Frame) (s : Station)
    → (others (take_frames kfs s).tx_queue ≡ others s.tx_queue ++ others (data_of kfs))
      × (length (take_frames kfs s).tx_queue ≤ length s.tx_queue + length (data_of kfs))
unfolding take_frames others
take_frames-others [] s = (sym (append-nil (others s.tx_queue)), omega arith)
take_frames-others (kf ∷ kfs) s =
    let next = take_frames-others kfs (take_frame kf s) in
    elim (Bool-cases (kf.command == data_frame && not (is_empty kf.payload))) [
      | inl e ↦
          let q = take_frame_data kf s e in
          rw e (
            next.0
                ∙ ap (λ q. others q ++ others (data_of kfs)) q
                ∙ ap (λ xs. xs ++ others (data_of kfs)) (others-enqueue_frame kf.payload s.tx_queue)
                ∙ append-others (others s.tx_queue) (is_s_frame kf.payload) kf.payload
                    (others (data_of kfs)),
            omega (
              arith,
              next.1,
              ap (λ (q : List Bytes). length q) q,
              length-enqueue_frame kf.payload s.tx_queue,
            ),
          )
      | inr e ↦
          let q = take_frame_other kf s e in
          rw e (
            next.0 ∙ ap (λ q. others q ++ others (data_of kfs)) q,
            omega (arith, next.1, ap (λ (q : List Bytes). length q) q),
          )
    ]
