-- ===== src/Ax25/Kiss/Laws.antt =====
-- Byte stuffing: round trip and transparency.
use bbs.Prelude.{
  ℕ, zero, suc, ◌+◌, ◌<◌, ◌≡◌, refl, false, List, [], ◌∷◌, Option, none, some, ◌==◌, length, arith,
  take, drop, ◌≢◌, some_of_ne_none, ◌≤◌, get_elem?, length-take, length-drop, Bool-cases, inl, inr,
  leb, ltb, ◌>>=◌,
}
use bbs.Text.{Text, strip}
use bbs.Ax25.NetromFrame.Wire.{Bytes, wire_ssid}
use bbs.Ax25.Address.{format_addr}
use bbs.Ax25.Kiss.{
  KissFrame, fend, fesc, kiss_unescape, kiss_escape, decode_ax25, decode_callsign, digi_entry,
  walk_path, format_field, field_chars, decode_info, path_of, is_ui_control,
}

abbrev pub NoFend : Bytes → Type 0
NoFend [] = Unit
NoFend (b ∷ bytes) = ((b == fend) ≡ false) × NoFend bytes

unescape_plain :
    (b : ℕ) (bytes : Bytes)
    → (b == fesc) ≡ false
    → kiss_unescape (b ∷ bytes) ≡ b ∷ kiss_unescape bytes
unfolding kiss_unescape
unescape_plain b [] h = rw h
unescape_plain b (x ∷ bytes) h = rw h

unescape_fend : (bytes : Bytes) → kiss_unescape (fesc ∷ 220 ∷ bytes) ≡ fend ∷ kiss_unescape bytes
unfolding kiss_unescape
unescape_fend bytes = refl

unescape_fesc : (bytes : Bytes) → kiss_unescape (fesc ∷ 221 ∷ bytes) ≡ fesc ∷ kiss_unescape bytes
unfolding kiss_unescape
unescape_fesc bytes = refl

-- Escaping and unescaping a payload gives the payload back.
pub unescape-escape : (bytes : Bytes) → kiss_unescape (kiss_escape bytes) ≡ bytes
unfolding kiss_escape
unescape-escape [] = unfold kiss_unescape in refl
unescape-escape (b ∷ bytes) =
    let e = kiss_escape bytes in
    ground (arith, unescape-escape bytes, unescape_fend e, unescape_fesc e, unescape_plain b e)

-- An escaped payload holds no FEND.
pub escape-NoFend : (bytes : Bytes) → NoFend (kiss_escape bytes)
unfolding kiss_escape
escape-NoFend [] = tt
escape-NoFend (b ∷ bytes) = ground (arith, escape-NoFend bytes)

format_addr_total : (call : Text) (ssid : ℕ) → ssid < 16 → format_addr call ssid ≢ none
unfolding format_addr
format_addr_total call ssid h = ground arith

bind_total :
    {A B : Type 0} (m : Option A) (f : A → Option B)
    → m ≢ none
    → ((a : A) → f a ≢ none)
    → (m >>= f) ≢ none
bind_total none f h k = absurd (h refl)
bind_total (some a) f h k = k a

-- An index in range raises nothing.
in_range : (bytes : Bytes) (i : ℕ) → i < length bytes → get_elem? bytes i ≢ none
in_range [] i h = absurd (omega (arith, h))
in_range (b ∷ bytes) zero h = λ p. cc
in_range (b ∷ bytes) (suc i) h = in_range bytes i (omega (arith, h))

decoded_range :
    (field_ : Bytes)
    → 6 < length field_
    → (d : Text × ℕ) × (decode_callsign field_ ≡ some d) × (d.1 < 16)
unfolding decode_callsign
decoded_range field_ h =
    let (last, e) = some_of_ne_none _ (in_range field_ 6 h) in
    ((strip (field_chars (take 6 field_)), wire_ssid last), rw e refl, omega arith)

format_field_total : (field_ : Bytes) → 6 < length field_ → format_field field_ ≢ none
format_field_total field_ h =
    let (d, e, small) = decoded_range field_ h in rw e (format_addr_total d.0 d.1 small)

digi_entry_total :
    (field_ : Bytes) (via : List Text) → 6 < length field_ → digi_entry field_ via ≢ none
unfolding digi_entry
digi_entry_total field_ via h =
    let (last, e) = some_of_ne_none _ (in_range field_ 6 h) in
    let (d, f, small) = decoded_range field_ h in
    rw (f, e) (ground (arith, format_addr_total d.0 d.1 small))

length-slice :
    (ax25 : Bytes) (offset : ℕ) → offset + 7 ≤ length ax25 → length (take 7 (drop offset ax25)) ≡ 7
length-slice ax25 offset h =
    omega (arith, h, length-take 7 (drop offset ax25), length-drop offset ax25)

walk_path_total :
    (fuel : ℕ) (ax25 : Bytes) (offset : ℕ) (via : List Text) → walk_path fuel ax25 offset via ≢ none
unfolding walk_path
walk_path_total zero ax25 offset via = cc
walk_path_total (suc fuel) ax25 offset via = elim (Bool-cases (leb (offset + 7) (length ax25))) [
  | inr e ↦ rw e (λ p. cc)
  | inl e ↦
      let field_ : Bytes = take 7 (drop offset ax25) in
      let whole : 6 < length field_ = ground (arith, e, length-slice ax25 offset) in
      let (via', f) = some_of_ne_none _ (digi_entry_total field_ via whole) in
      let (last, g) = some_of_ne_none _ (in_range field_ 6 whole) in
      rw (e, f, g) (ground (arith, walk_path_total fuel ax25 (offset + 7) via'))
]

decode_info_total :
    (ax25 : Bytes) (port offset : ℕ) (dest src : Text) (via : List Text)
    → decode_info ax25 port offset dest src via ≢ none
unfolding decode_info
decode_info_total ax25 port offset dest src via = elim (Bool-cases (leb (length ax25) offset)) [
  | inl e ↦ rw e (λ p. cc)
  | inr e ↦
      let (control, f) = some_of_ne_none _ (in_range ax25 offset (ground (arith, e))) in
      rw (e, f)
        (elim (Bool-cases (is_ui_control control)) [
          | inr g ↦ rw g (λ p. cc)
          | inl g ↦ rw g (elim (Bool-cases (ltb (length ax25) (offset + 2))) [
            | inl h ↦ rw h (λ p. cc)
            | inr h ↦
                let (pid, k) = some_of_ne_none _ (in_range ax25 (offset + 1) (ground (arith, h))) in
                rw (h, k) (λ p. cc)
          ])
        ])
]

path_of_total : (ax25 : Bytes) (last : ℕ) → path_of ax25 last ≢ none
path_of_total ax25 last = ground (arith, walk_path_total (length ax25) ax25 14 [])

walked_total : (ax25 : Bytes) → 13 < length ax25 → (get_elem? ax25 13 >>= path_of ax25) ≢ none
walked_total ax25 h = bind_total _ _ (in_range ax25 13 h) (path_of_total ax25)

not_raised : (ax25 : Bytes) (port : ℕ) → decode_ax25 ax25 port ≢ none
unfolding decode_ax25
not_raised ax25 port = elim (Bool-cases (ltb (length ax25) 15)) [
  | inl e ↦ rw e (λ p. cc)
  | inr e ↦
      let first : 6 < length (take 7 ax25) = ground (arith, e, length-slice ax25 0) in
      let second : 6 < length (take 7 (drop 7 ax25)) = ground (arith, e, length-slice ax25 7) in
      rw e (
        bind_total _ _ (format_field_total (take 7 ax25) first) (λ dest.
          bind_total _ _ (format_field_total (take 7 (drop 7 ax25)) second) (λ src.
            bind_total _ _ (walked_total ax25 (ground (arith, e)))
              (λ walked. decode_info_total ax25 port walked.1 dest src walked.0))))
]

-- `decode_ax25` never raises, whatever the bytes: its guards keep every index within the frame, and the
-- SSID of a wire address is in range.
pub decode_ax25_total :
    (ax25 : Bytes) (port : ℕ) → (r : Option KissFrame) × (decode_ax25 ax25 port ≡ some r)
decode_ax25_total ax25 port = some_of_ne_none (decode_ax25 ax25 port) (not_raised ax25 port)
