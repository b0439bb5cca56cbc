-- ===== src/Terminal/Session/Settings.antt =====
-- The settings of the terminal: what its commands make of them.
use ax25toolkit.Base.{
  ℕ, ◌≡◌, refl, ◌≢◌, Bool, false, List, [], ◌∷◌, ◌++◌, arith, Bytes, All, All-weaken, is_empty,
}
use ax25toolkit.Base.Text.{codes, is_digit}
use ax25toolkit.Base.Text.Decimal.{IsDigit}
use ax25toolkit.Base.Text.Trim.{trim_bare, All-IsTrim}
use ax25toolkit.Base.Text.Fields.{fields, fields_piece, fields_last}
use ax25toolkit.Addr.Wire.{SsidFits}
use ax25toolkit.Terminal.Station.{Station, station_text}
use ax25toolkit.Terminal.Station.Typed.{IsTyped, from_str-station_text, station_text-All}
use ax25toolkit.Terminal.Session.{
  Session, is_blank, stations_of, parse_digi_path, path_text, cmd_mycall, cmd_dest, cmd_digi,
  process_line,
}

-- A character that `parse_digi_path` neither splits at nor trims.
abbrev pub IsPathChar : ℕ → Type 0
IsPathChar c = (c ≢ b',') × (is_blank c ≡ false)

-- A station that has been typed, with a call sign of such characters and an SSID from 0 to 15.
pub record IsHop (a : Station) : Type 0 where
  pub typed : IsTyped a
  pub named : is_empty a.callsign ≡ false
  pub path_chars : All IsPathChar a.callsign
  pub ssid_fits : SsidFits a.ssid

digit-IsPathChar : (c : ℕ) → IsDigit c → IsPathChar c
unfolding is_digit
digit-IsPathChar c h = ground arith

hop_chars : (a : Station) → IsHop a → All IsPathChar (station_text a)
hop_chars a h = station_text-All IsPathChar a h.typed h.path_chars (ground arith) digit-IsPathChar

is_empty-append : (xs ys : Bytes) → is_empty xs ≡ false → is_empty (xs ++ ys) ≡ false
is_empty-append [] ys h = absurd (ground arith)
is_empty-append (x ∷ xs) ys h = refl

hop_named : (a : Station) → IsHop a → is_empty (station_text a) ≡ false
unfolding station_text
hop_named a h = is_empty-append _ _ (is_empty-append a.callsign _ h.named)

-- The piece that a hop is printed as gives the hop.
stations_of_hop :
    (a : Station) (toks : List Bytes)
    → IsHop a
    → stations_of (station_text a ∷ toks) ≡ a ∷ stations_of toks
unfolding stations_of
stations_of_hop a toks h =
    rw
      (
        trim_bare is_blank (station_text a) (
            All-IsTrim is_blank _
              (All-weaken IsPathChar (λ c. is_blank c ≡ false) _ (λ c k. k.1) (hop_chars a h))),
        hop_named a h,
        from_str-station_text a h.typed h.ssid_fits,
      )
      refl

stations_of-path_text :
    (ds : List Station) → All IsHop ds → stations_of (fields b',' [] (path_text ds)) ≡ ds
unfolding path_text
stations_of-path_text [] h = unfold stations_of fields in refl
stations_of-path_text (d ∷ []) h =
    rw
      (
        fields_last b',' (station_text d)
            (All-weaken IsPathChar (λ c. c ≢ b',') _ (λ c k. k.0) (hop_chars d h.0))
            (hop_named d h.0),
        stations_of_hop d [] h.0,
      )
      (unfold stations_of in refl)
stations_of-path_text (d ∷ (e ∷ ds)) h =
    rw
      (
        fields_piece b',' [] (station_text d) (path_text (e ∷ ds))
            (All-weaken IsPathChar (λ c. c ≢ b',') _ (λ c k. k.0) (hop_chars d h.0)),
        stations_of_hop d (fields b',' [] (path_text (e ∷ ds))) h.0,
        stations_of-path_text (e ∷ ds) h.1,
      )
      refl

-- A path that the terminal shows can be typed back: `/digi` with the text of a path sets the digipeaters to
-- that path, whatever they were, and changes nothing else. Each station of the path has a call sign without
-- blanks, commas, dashes and lower-case letters, and an SSID from 0 to 15.
pub process_line-path_text :
    (ok : Bytes → Bool) (s : Session) (ds : List Station)
    → All IsHop ds
    → (process_line ok (codes "/digi " ++ path_text ds) s).0 ≡ record s { digis = ds }
unfolding process_line cmd_digi parse_digi_path
process_line-path_text ok s ds h = rw (stations_of-path_text ds h) refl

settings_typed :
    (ok : Bytes → Bool) (s : Session) (a : Station)
    → IsHop a
    → ((process_line ok (codes "/mycall " ++ station_text a) s).0 ≡ record s { mycall = a })
      × ((process_line ok (codes "/dest " ++ station_text a) s).0 ≡ record s { dest = a })
unfolding process_line cmd_mycall cmd_dest
settings_typed ok s a h =
    rw (hop_named a h, from_str-station_text a h.typed h.ssid_fits) (refl, refl)

-- The settings that the terminal shows can be typed back: `/mycall` and `/dest` with the text of a station
-- and `/digi` with that of a path each set their own setting to that station or path, whatever it was,
-- and leave the two others and the session's running as they were. Each station has a call sign, which is not
-- empty and has no blanks, commas, dashes and lower-case letters, an SSID from 0 to 15, and is not marked as
-- having repeated or as the last one.
pub process_line-settings :
    (ok : Bytes → Bool) (s : Session) (a : Station) (ds : List Station)
    → IsHop a
    → All IsHop ds
    → ((process_line ok (codes "/mycall " ++ station_text a) s).0 ≡ record s { mycall = a })
      × ((process_line ok (codes "/dest " ++ station_text a) s).0 ≡ record s { dest = a })
      × ((process_line ok (codes "/digi " ++ path_text ds) s).0 ≡ record s { digis = ds })
process_line-settings ok s a ds h hs =
    let typed = settings_typed ok s a h in (typed.0, typed.1, process_line-path_text ok s ds hs)
