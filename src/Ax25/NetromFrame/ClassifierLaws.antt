-- ===== src/Ax25/NetromFrame/ClassifierLaws.antt =====
-- The classifier `looks_like_netrom_l3` against the codec.
use bbs.Prelude.{
  ℕ, ◌+◌, ◌*◌, ◌/◌, ◌%◌, ◌≤◌, ◌<◌, ◌≡◌, true, false, [], ◌∷◌, ◌++◌, some, length, arith, get_or,
  ltb,
}
use bbs.Ax25.NetromFrame.Wire.{Bytes}
use bbs.Ax25.NetromFrame.WireLaws.{IsWireCall-wire}
use bbs.Ax25.NetromFrame.Header.{L3Header, opcode, header_fields, decode_l3_header}
use bbs.Ax25.NetromFrame.HeaderLaws.{
  IsHeader, Six-length, encoded_bytes, header_bytes, encode_l3_header_lem,
}
use bbs.Ax25.NetromFrame.Frame.{all_callsign_chars, encode_l3_frame}
use bbs.Ax25.NetromFrame.Classifier.{looks_like_netrom_l3}

-- A header that a node may put on a crosslink: a lifetime of 1 to 64 hops and a known opcode.
pub record IsPlausible (h : L3Header) : Type 0 where
  pub alive : 1 ≤ h.ttl
  pub bounded : h.ttl ≤ 64
  pub known_low : 1 ≤ opcode h
  pub known_high : opcode h ≤ 6

looks_like-bytes :
    (o d payload : Bytes) (s t : ℕ) (h : L3Header)
    → length o ≡ 6
    → length d ≡ 6
    → all_callsign_chars o ≡ true
    → all_callsign_chars d ≡ true
    → s % 2 ≡ 0
    → s < 32
    → t < 32
    → IsPlausible h
    → looks_like_netrom_l3 (header_bytes o s d t h ++ payload) ≡ true
looks_like-bytes o d payload s t h lo ld vo vd e ls lt p =
    let x = Six-length o lo in
    let y = Six-length d ld in
    let vo' : all_callsign_chars (x.a ∷ x.b ∷ x.c ∷ x.d ∷ x.e ∷ x.f ∷ []) ≡ true = rw x.is at vo in
    let vd' : all_callsign_chars (y.a ∷ y.b ∷ y.c ∷ y.d ∷ y.e ∷ y.f ∷ []) ≡ true = rw y.is at vd in
    rw (x.is, y.is) (unfold header_bytes looks_like_netrom_l3 in ground (arith, vo', vd', p))

-- The classifier accepts every frame that the encoder makes of a plausible header, whatever its payload.
pub looks_like-encode_l3_frame :
    (h : L3Header) (payload : Bytes)
    → IsHeader h
    → IsPlausible h
    → (bytes : Bytes) × (encode_l3_frame h payload ≡ some bytes)
      × (looks_like_netrom_l3 bytes ≡ true)
unfolding encode_l3_frame
looks_like-encode_l3_frame h payload v p =
    let o = IsWireCall-wire v.origin in
    let d = IsWireCall-wire v.dest in
    (
      encoded_bytes h v ++ payload,
      rw (encode_l3_header_lem h v),
      unfold encoded_bytes in
          looks_like-bytes o.first d.first payload o.last (d.last / 2 * 2 + 1) h o.six d.six o.valid
            d.valid o.even o.small (omega (arith, d.small)) p,
    )

looks_like_fields :
    (bytes : Bytes)
    → looks_like_netrom_l3 bytes ≡ true
    → (ltb (length bytes) 20 ≡ false)
      × (1 ≤ get_or bytes 14 0)
      × (get_or bytes 14 0 ≤ 64)
      × (1 ≤ get_or bytes 19 0 % 8)
      × (get_or bytes 19 0 % 8 ≤ 6)
unfolding looks_like_netrom_l3
looks_like_fields bytes e = ground arith

-- What the classifier accepts decodes to a header with a known opcode and a lifetime of 1 to 64.
pub looks_like-IsPlausible :
    (bytes : Bytes)
    → looks_like_netrom_l3 bytes ≡ true
    → (h : L3Header) × (decode_l3_header bytes ≡ some h) × IsPlausible h
unfolding decode_l3_header
looks_like-IsPlausible bytes e =
    let f = looks_like_fields bytes e in
    (
      header_fields bytes,
      rw f.0,
      record { alive = f.1; bounded = f.2; known_low = f.3; known_high = f.4 },
    )
