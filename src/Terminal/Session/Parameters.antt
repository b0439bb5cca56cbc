-- ===== src/Terminal/Session/Parameters.antt =====
-- The commands `/txdelay` and `/persist` of the terminal.
use ax25toolkit.Base.{
  ℕ, ◌<◌, ◌^◌, ◌/◌, ◌%◌, ◌≡◌, refl, ◌∙◌, Bool, [], ◌∷◌, ◌++◌, Bytes, ltb, Bool-cases, inl, inr,
  if◌then◌else◌, ap, some,
}
use ax25toolkit.Base.Int.{pos}
use ax25toolkit.Base.Text.{codes, to_string}
use ax25toolkit.Base.Text.Decimal.{stoi-to_string}
use ax25toolkit.Kiss.Cmd.{tx_delay, persistence}
use ax25toolkit.Kiss.Params.{set_txdelay, set_persistence}
use ax25toolkit.Terminal.Stream.Same.{kiss_encode_lem}
use ax25toolkit.Terminal.Stream.{kiss_encode}
use ax25toolkit.Terminal.Session.{
  Session, txdelay_set, persist_set, cmd_txdelay, cmd_persist, txdelay_to, persist_to, process_line,
}
use ax25toolkit.Terminal.Session.Sending.{written, written-put_out}

-- The bytes, if their write succeeds.
abbrev pub written_if : (Bytes → Bool) → Bytes → Bytes
written_if ok bytes = if ok bytes then bytes else []

txdelay_to-written :
    (ok : Bytes → Bool) (s : Session) (ms : ℕ)
    → ((txdelay_to ok s (some (pos ms))).0 ≡ s)
      × (written (txdelay_to ok s (some (pos ms))).1
          ≡ (if ltb 2550 ms then [] else written_if ok (set_txdelay ms)))
unfolding txdelay_to set_txdelay
txdelay_to-written ok s ms = elim (Bool-cases (ltb 2550 ms)) [
  | inl e ↦ rw e (refl, refl)
  | inr e ↦ rw e (
    refl,
    written-put_out ok (kiss_encode ((ms / 10) % 2 ^ 8 ∷ []) tx_delay 0) (txdelay_set ms)
        ∙ ap (written_if ok) (kiss_encode_lem ((ms / 10) % 2 ^ 8 ∷ []) tx_delay 0),
  )
]

persist_to-written :
    (ok : Bytes → Bool) (s : Session) (v : ℕ)
    → ((persist_to ok s (some (pos v))).0 ≡ s)
      × (written (persist_to ok s (some (pos v))).1
          ≡ (if ltb 255 v then [] else written_if ok (set_persistence v)))
unfolding persist_to set_persistence
persist_to-written ok s v = elim (Bool-cases (ltb 255 v)) [
  | inl e ↦ rw e (refl, refl)
  | inr e ↦ rw e (
    refl,
    written-put_out ok (kiss_encode (v % 2 ^ 8 ∷ []) persistence 0) (persist_set v)
        ∙ ap (written_if ok) (kiss_encode_lem (v % 2 ^ 8 ∷ []) persistence 0),
  )
]

-- `/txdelay` and `/persist` with a number in decimal write what the library's `set_txdelay` and
-- `set_persistence` write for it, a delay up to 2550 ms and a persistence up to 255; for a larger number, up
-- to what an `int` holds, they write nothing, and nothing where the write fails. The session stays as it is.
pub process_line-written :
    (ok : Bytes → Bool) (s : Session) (n : ℕ)
    → n < 2 ^ 31
    → let delay = process_line ok (codes "/txdelay " ++ to_string n) s in
      let persist = process_line ok (codes "/persist " ++ to_string n) s in
      ((delay.0 ≡ s)
        × (written delay.1 ≡ (if ltb 2550 n then [] else written_if ok (set_txdelay n))))
      × ((persist.0 ≡ s)
          × (written persist.1 ≡ (if ltb 255 n then [] else written_if ok (set_persistence n))))
unfolding process_line cmd_txdelay cmd_persist
process_line-written ok s n h =
    rw (stoi-to_string n h) (txdelay_to-written ok s n, persist_to-written ok s n)
