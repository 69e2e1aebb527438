-- ===== src/Ax25/NetromFrame/HeaderLaws.antt =====
-- Round trip of the L3 header.
use bbs.Prelude.{ℕ, ◌+◌, ◌*◌, ◌/◌, ◌<◌, ◌≡◌, refl, [], ◌∷◌, ◌++◌, some, length, arith}
use bbs.Ax25.NetromFrame.Wire.{Bytes, decode_wire_call}
use bbs.Ax25.NetromFrame.WireLaws.{IsWireCall, WireOf, IsWireCall-wire}
use bbs.Ax25.NetromFrame.Header.{L3Header, encode_l3_header, decode_l3_header}

-- The addresses are callsigns, and the other fields are bytes.
pub record IsHeader (h : L3Header) : Type 0 where
  pub origin : IsWireCall h.origin_call
  pub dest : IsWireCall h.dest_call
  pub ttl : h.ttl < 256
  pub circuit_idx : h.circuit_idx < 256
  pub circuit_id : h.circuit_id < 256
  pub tx_seq : h.tx_seq < 256
  pub rx_seq : h.rx_seq < 256
  pub opcode_flags : h.opcode_flags < 256

pub record Six (w : Bytes) : Type 0 where
  pub a : ℕ
  pub b : ℕ
  pub c : ℕ
  pub d : ℕ
  pub e : ℕ
  pub f : ℕ
  pub is : w ≡ a ∷ b ∷ c ∷ d ∷ e ∷ f ∷ []

pub Six-length : (w : Bytes) → length w ≡ 6 → Six w
Six-length (a ∷ b ∷ c ∷ d ∷ e ∷ f ∷ []) h = record {
  a = a;
  b = b;
  c = c;
  d = d;
  e = e;
  f = f;
  is = refl;
}
Six-length [] h = absurd (omega arith)
Six-length (_ ∷ []) h = absurd (omega arith)
Six-length (_ ∷ _ ∷ []) h = absurd (omega arith)
Six-length (_ ∷ _ ∷ _ ∷ []) h = absurd (omega arith)
Six-length (_ ∷ _ ∷ _ ∷ _ ∷ []) h = absurd (omega arith)
Six-length (_ ∷ _ ∷ _ ∷ _ ∷ _ ∷ []) h = absurd (omega arith)
Six-length (_ ∷ _ ∷ _ ∷ _ ∷ _ ∷ _ ∷ _ ∷ _) h = absurd (omega arith)

-- The 20 bytes of a header, by its two addresses.
unfoldable pub header_bytes : Bytes → ℕ → Bytes → ℕ → L3Header → Bytes
header_bytes o s d t h =
    o
    ++ (s
        ∷ (d
            ++ (t ∷ h.ttl ∷ h.circuit_idx ∷ h.circuit_id ∷ h.tx_seq ∷ h.rx_seq ∷ h.opcode_flags
                ∷ [])))

decode-header_bytes :
    (o d payload : Bytes) (s t : ℕ) (h : L3Header)
    → Six o
    → Six d
    → decode_wire_call (o ++ s ∷ []) ≡ h.origin_call
    → decode_wire_call (d ++ t ∷ []) ≡ h.dest_call
    → decode_l3_header (header_bytes o s d t h ++ payload) ≡ some h
unfolding decode_l3_header header_bytes
decode-header_bytes o d payload s t h x y p q =
    let p' : decode_wire_call (x.a ∷ x.b ∷ x.c ∷ x.d ∷ x.e ∷ x.f ∷ s ∷ []) ≡ h.origin_call =
      rw x.is at p in
    let q' : decode_wire_call (y.a ∷ y.b ∷ y.c ∷ y.d ∷ y.e ∷ y.f ∷ t ∷ []) ≡ h.dest_call =
      rw y.is at q in
    rw (x.is, y.is) (ground (arith, p', q'))

module _ (h : L3Header) (valid : IsHeader h) where
  abbrev o : WireOf h.origin_call
  o = IsWireCall-wire valid.origin

  abbrev d : WireOf h.dest_call
  d = IsWireCall-wire valid.dest

  unfoldable pub encoded_bytes : Bytes
  encoded_bytes = header_bytes o.first o.last d.first (d.last / 2 * 2 + 1) h

  pub encode_l3_header_lem : encode_l3_header h ≡ some encoded_bytes
  unfolding encode_l3_header encoded_bytes header_bytes
  encode_l3_header_lem =
      let x = Six-length o.first o.six in
      let y = Six-length d.first d.six in
      rw (o.encoded, d.encoded) (rw (x.is, y.is) (ground (arith, valid)))

  pub decode_l3_header_lem :
      (payload : Bytes) → decode_l3_header (encoded_bytes ++ payload) ≡ some h
  unfolding encoded_bytes
  decode_l3_header_lem payload =
      decode-header_bytes o.first d.first payload o.last (d.last / 2 * 2 + 1) h
        (Six-length o.first o.six) (Six-length d.first d.six) (o.decoded o.last refl)
        (d.decoded (d.last / 2 * 2 + 1) (omega arith))
