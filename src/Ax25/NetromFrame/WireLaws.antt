-- ===== src/Ax25/NetromFrame/WireLaws.antt =====
-- Round trips of the wire addresses and aliases.
use bbs.Prelude.{
  ℕ, suc, zero, ◌-◌, ◌*◌, ◌/◌, ◌%◌, ◌≤◌, ◌<◌, ◌≡◌, refl, sym, Bool, true, ◌||◌, [], ◌∷◌, ◌++◌, map,
  none, some, ◌==◌, length, replicate, arith, take_all, length-map, length-append, length-replicate,
  take-append_left, get_or-append_right, Bool-cases, inl, inr, ◌∙◌,
}
use bbs.Text.{Text, upper, is_digit, is_upper, rsplit_dash, decimal}
use bbs.Text.Laws.{parse_int-decimal}
use bbs.Ax25.NetromFrame.Frame.{all_callsign_chars}
use bbs.Ax25.NetromFrame.Wire.{
  Bytes, wire_chars, wire_ssid, show_call, decode_wire_call, to_wire, wire_bytes, encode_wire_call,
}

-- The characters of a callsign: A-Z and 0-9.
abbrev pub is_call_char : ℕ → Bool
is_call_char c = is_digit c || is_upper c

abbrev pub CallChars : Text → Type 0
CallChars [] = Unit
CallChars (c ∷ s) = (is_call_char c ≡ true) × CallChars s

-- What a wire address can carry: at most six capital letters and digits, possibly none, and an SSID
-- from 0 to 15, left out if 0.
pub record IsWireCall (addr : Text) : Type 0 where
  pub call : Text
  pub ssid : ℕ
  pub chars : CallChars call
  pub short : length call ≤ 6
  pub ssid_range : ssid < 16
  pub shown : addr ≡ show_call call ssid

CallChars-append : (s t : Text) → CallChars s → CallChars t → CallChars (s ++ t)
CallChars-append [] t h k = k
CallChars-append (c ∷ s) t h k = (h.0, CallChars-append s t h.1 k)

pub upper-CallChars : (s : Text) → CallChars s → upper s ≡ s
upper-CallChars [] h = refl
upper-CallChars (c ∷ s) h = ground (arith, upper-CallChars s h.1)

pub upper-append : (s t : Text) → upper (s ++ t) ≡ upper s ++ upper t
upper-append [] t = refl
upper-append (c ∷ s) t = rw (upper-append s t)

pub decimal-CallChars : (n : ℕ) → n < 100 → CallChars (decimal n)
unfolding decimal
decimal-CallChars n h = ground arith

rsplit_dash-CallChars : (s : Text) → CallChars s → rsplit_dash s ≡ (s, none)
unfolding rsplit_dash
rsplit_dash-CallChars [] h = refl
rsplit_dash-CallChars (c ∷ s) h = ground (arith, rsplit_dash-CallChars s h.1)

rsplit_dash-append :
    (front back : Text) → CallChars back → rsplit_dash (front ++ 45 ∷ back) ≡ (front, some back)
unfolding rsplit_dash
rsplit_dash-append [] back h = rw (rsplit_dash-CallChars back h)
rsplit_dash-append (c ∷ front) back h = rw (rsplit_dash-append front back h)

pub upper-show_call :
    (call : Text) (ssid : ℕ)
    → CallChars call
    → ssid < 16
    → upper (show_call call ssid) ≡ show_call call ssid
unfolding show_call
upper-show_call call ssid h k = elim (Bool-cases (ssid == 0)) [
  | inl e ↦ rw e (upper-CallChars call h)
  | inr e ↦ rw e (
      rw (upper-append call (45 ∷ decimal ssid)) (
        rw (
          upper-CallChars call h,
          upper-CallChars (decimal ssid) (decimal-CallChars ssid (omega arith)),
        )))
]

encode-show_call :
    (call : Text) (ssid : ℕ)
    → CallChars call
    → ssid < 16
    → encode_wire_call (show_call call ssid) ≡ some (wire_bytes call ssid)
unfolding encode_wire_call
encode-show_call call ssid h k = rw (upper-show_call call ssid h k) (elim (Bool-cases (ssid == 0)) [
  | inl e ↦
      let z : ssid ≡ 0 = ground arith in unfold show_call in rw (z, rsplit_dash-CallChars call h)
  | inr e ↦
      unfold show_call in
      rw (e, rsplit_dash-append call (decimal ssid) (decimal-CallChars ssid (omega arith)))
        (rw (parse_int-decimal ssid (omega arith)) (ground arith))
])

wire_chars-pad : (n : ℕ) → wire_chars (map to_wire (replicate n 32)) ≡ []
unfolding wire_chars
wire_chars-pad zero = refl
wire_chars-pad (suc n) = wire_chars-pad n

wire_chars-ljust :
    (s : Text) (n : ℕ) → CallChars s → wire_chars (map to_wire (s ++ replicate n 32)) ≡ s
unfolding wire_chars
wire_chars-ljust [] n h = wire_chars-pad n
wire_chars-ljust (c ∷ s) n h = ground (arith, wire_chars-ljust s n h.1)

length-padded :
    (call : Text)
    → length call ≤ 6
    → length (map to_wire (call ++ replicate (6 - length call) 32)) ≡ 6
length-padded call h = omega (
  arith,
  length-map (call ++ replicate (6 - length call) 32) to_wire,
  length-append call (replicate (6 - length call) 32),
  length-replicate {A = ℕ} (6 - length call) 32,
)

pub decode_wire_call-append :
    (w : Bytes) (b : ℕ)
    → length w ≡ 6
    → decode_wire_call (w ++ b ∷ []) ≡ show_call (wire_chars w) (wire_ssid b)
unfolding decode_wire_call
decode_wire_call-append w b h =
    rw (take-append_left 6 w (b ∷ []) h) (rw (get_or-append_right 6 w (b ∷ []) 0 h))

callsign_chars-pad : (n : ℕ) → all_callsign_chars (map to_wire (replicate n 32)) ≡ true
unfolding all_callsign_chars
callsign_chars-pad zero = refl
callsign_chars-pad (suc n) = callsign_chars-pad n

callsign_chars-ljust :
    (s : Text) (n : ℕ) → CallChars s → all_callsign_chars (map to_wire (s ++ replicate n 32)) ≡ true
unfolding all_callsign_chars
callsign_chars-ljust [] n h = callsign_chars-pad n
callsign_chars-ljust (c ∷ s) n h = ground (arith, callsign_chars-ljust s n h.1)

-- The wire form of an address: six bytes of characters and an SSID byte whose other bits are 0.
-- Whatever its bit 0 is set to, it reads back as the address.
pub record WireOf (addr : Text) : Type 0 where
  pub first : Bytes
  pub last : ℕ
  pub six : length first ≡ 6
  pub encoded : encode_wire_call addr ≡ some (first ++ last ∷ [])
  pub even : last % 2 ≡ 0
  pub small : last < 32
  pub valid : all_callsign_chars first ≡ true
  pub decoded : (b : ℕ) → b / 2 ≡ last / 2 → decode_wire_call (first ++ b ∷ []) ≡ addr

pub IsWireCall-wire : {addr : Text} → IsWireCall addr → WireOf addr
IsWireCall-wire {addr} c =
    let w = map to_wire (c.call ++ replicate (6 - length c.call) 32) in
    let l : length w ≡ 6 = length-padded c.call c.short in
    record {
      first = w;
      last = c.ssid * 2 % 32;
      six = l;
      encoded =
          rw (c.shown, encode-show_call c.call c.ssid c.chars c.ssid_range)
            (unfold wire_bytes in rw (take_all 6 c.call c.short));
      even = omega arith;
      small = omega arith;
      valid = callsign_chars-ljust c.call (6 - length c.call) c.chars;
      decoded = λ b e.
          decode_wire_call-append w b l
          ∙ (let same : wire_ssid b ≡ c.ssid = omega (arith, c.ssid_range) in
              rw (wire_chars-ljust c.call (6 - length c.call) c.chars, same) (sym c.shown));
    }

-- Encoding a callsign to its 7 wire bytes and decoding them gives the callsign back.
pub decode-encode_wire_call :
    (addr : Text)
    → IsWireCall addr
    → (w : Bytes) × (encode_wire_call addr ≡ some w) × (length w ≡ 7) × (decode_wire_call w ≡ addr)
decode-encode_wire_call addr c =
    let w = IsWireCall-wire c in
    (
      w.first ++ w.last ∷ [],
      w.encoded,
      omega (arith, length-append w.first (w.last ∷ []), w.six),
      w.decoded w.last refl,
    )
