-- ===== src/Transport/Kiss/Fields.antt =====
-- The address fields of a UI frame, as the decoder reads them.
use bbs.Prelude.{
  ◌>>=◌, ℕ, zero, suc, ◌-◌, ◌*◌, ◌≤◌, ◌<◌, ◌≡◌, refl, sym, ap, ◌∙◌, Bool, true, false, [], ◌∷◌,
  ◌++◌, map, some, length, replicate, take, arith, take_all, length-map, length-append,
  length-replicate, take-append_left, get_elem?-append_more,
}
use bbs.Text.{Text}
use bbs.Ax25.NetromFrame.Wire.{Bytes, show_call, wire_ssid}
use bbs.Ax25.NetromFrame.WireLaws.{CallChars, upper-CallChars}
use bbs.Ax25.Address.{format_addr}
use bbs.Ax25.Address.RoundTrip.{parsed, formatted, strip-CallChars}
use bbs.Ax25.Kiss.{field_chars, decode_callsign, format_field}
use bbs.Transport.Kiss.{shifted, ssid_byte, encode_addr, encode_parsed}

abbrev doubled : Text → Bytes
doubled = map (λ c. c * 2)

shifted-pad : (n : ℕ) → shifted (replicate n 32) ≡ some (doubled (replicate n 32))
unfolding shifted
shifted-pad zero = refl
shifted-pad (suc n) = rw (shifted-pad n) refl

shifted-ljust :
    (s : Text) (n : ℕ)
    → CallChars s
    → shifted (s ++ replicate n 32) ≡ some (doubled (s ++ replicate n 32))
unfolding shifted
shifted-ljust [] n h = shifted-pad n
shifted-ljust (c ∷ s) n (h, k) = rw (shifted-ljust s n k) (ground (arith, h))

field_chars-pad : (n : ℕ) → field_chars (doubled (replicate n 32)) ≡ []
unfolding field_chars
field_chars-pad zero = refl
field_chars-pad (suc n) = rw (field_chars-pad n) refl

field_chars-ljust :
    (s : Text) (n : ℕ) → CallChars s → field_chars (doubled (s ++ replicate n 32)) ≡ s
unfolding field_chars
field_chars-ljust [] n h = field_chars-pad n
field_chars-ljust (c ∷ s) n (h, k) = ground (arith, h, field_chars-ljust s n k)

-- An address of a callsign and an SSID that the parser takes.
pub record IsStation (addr : Text) : Type 0 where
  pub call : Text
  pub ssid : ℕ
  pub chars : CallChars call
  pub some_chars : 1 ≤ length call
  pub short : length call ≤ 6
  pub ssid_range : ssid < 16
  pub shown : addr ≡ show_call call ssid

abbrev pub six : {addr : Text} → IsStation addr → Bytes
six s = doubled (s.call ++ replicate (6 - length s.call) 32)

abbrev pub field : {addr : Text} → IsStation addr → Bool → Bool → Bytes
field s last high_bit = six s ++ ssid_byte s.ssid last high_bit ∷ []

pub length-six : {addr : Text} (s : IsStation addr) → length (six s) ≡ 6
length-six s = omega (
  arith,
  s.short,
  length-map (s.call ++ replicate (6 - length s.call) 32) (λ c. c * 2),
  length-append s.call (replicate (6 - length s.call) 32),
  length-replicate {A = ℕ} (6 - length s.call) 32,
)

pub length-field :
    {addr : Text} (s : IsStation addr) (last high : Bool) → length (field s last high) ≡ 7
length-field s last high =
    omega (arith, length-six s, length-append (six s) (ssid_byte s.ssid last high ∷ []))

pub encode_parsed-field :
    {addr : Text} (s : IsStation addr) (last high : Bool)
    → encode_parsed addr last high ≡ some (field s last high)
unfolding encode_addr
encode_parsed-field s last high =
    let pad : Text = s.call ++ replicate (6 - length s.call) 32 in
    let whole : take 6 pad ≡ pad = take_all 6 pad (
      omega (
        arith,
        s.short,
        length-append s.call (replicate (6 - length s.call) 32),
        length-replicate {A = ℕ} (6 - length s.call) 32,
      )) in
    ap (λ a. encode_parsed a last high) s.shown
    ∙ rw
        (
          parsed s.call s.ssid s.chars s.some_chars s.short s.ssid_range,
          upper-CallChars s.call s.chars,
          whole,
          shifted-ljust s.call (6 - length s.call) s.chars,
        )
        refl

wire_ssid-byte :
    (ssid : ℕ) (last high : Bool) → ssid < 16 → wire_ssid (ssid_byte ssid last high) ≡ ssid
wire_ssid-byte ssid true true h = omega (arith, h)
wire_ssid-byte ssid true false h = omega (arith, h)
wire_ssid-byte ssid false true h = omega (arith, h)
wire_ssid-byte ssid false false h = omega (arith, h)

pub decode_callsign-field :
    {addr : Text} (s : IsStation addr) (last high : Bool)
    → decode_callsign (field s last high) ≡ some (s.call, s.ssid)
unfolding decode_callsign
decode_callsign-field s last high =
    let b : ℕ = ssid_byte s.ssid last high in
    rw
      (
        take-append_left 6 (six s) (b ∷ []) (length-six s),
        field_chars-ljust s.call (6 - length s.call) s.chars,
        strip-CallChars s.call s.chars,
        get_elem?-append_more (six s) (b ∷ []) 6 0 (omega (arith, length-six s)),
        wire_ssid-byte s.ssid last high s.ssid_range,
      )
      refl

pub format_field-field :
    {addr : Text} (s : IsStation addr) (last high : Bool)
    → format_field (field s last high) ≡ some addr
format_field-field s last high =
    ap (λ o. o >>= (λ d. format_addr d.0 d.1)) (decode_callsign-field s last high)
    ∙ (formatted s.call s.ssid s.chars s.ssid_range ∙ ap some (sym s.shown))
