-- ===== src/Ax25/NetromFrame/FrameLaws.antt =====
-- Round trip of the L3/L4 frames, and what a decoded CONNECT REQUEST may carry.
use bbs.Prelude.{
  ℕ, ◌%◌, ◌≤◌, ◌<◌, ◌≡◌, refl, true, [], ◌∷◌, ◌++◌, Option, some, length, arith, ◌>>=◌, ◌∙◌,
  >>=-eq-some, take, drop, drop-append_left, take-append_left, ◌⊎◌, length-take, get_or,
}
use bbs.Text.{Text}
use bbs.Ax25.NetromFrame.Wire.{wire_chars, wire_ssid, Bytes, decode_wire_call}
use bbs.Ax25.NetromFrame.WireLaws.{CallChars, IsWireCall, IsWireCall-wire}
use bbs.Ax25.NetromFrame.Header.{
  L3Header, opcode, choke, decode_l3_header, opcode_connect_req, opcode_connect_ack,
  opcode_disconnect_req, opcode_disconnect_ack, opcode_information, opcode_information_ack,
}
use bbs.Ax25.NetromFrame.HeaderLaws.{
  IsHeader, Six-length, encoded_bytes, header_bytes, encode_l3_header_lem, decode_l3_header_lem,
}
use bbs.Ax25.NetromFrame.Frame.{
  ConnectRequest, L3Frame, connect_request, connect_ack, disconnect, information, information_ack,
  all_callsign_chars, wire_call_is_valid, encode_l3_frame, encode_connect_request_tail,
  encode_connect_ack_tail, decode_connect_request, decode_connect_ack, decode_payload,
  decode_l3_frame,
}

-- What the circuit code passes to `encode_l3_frame` for each kind of frame.
abbrev pub header_of : L3Frame → L3Header
header_of (connect_request r) = r.header
header_of (connect_ack a) = a.header
header_of (disconnect h) = h
header_of (information i) = i.header
header_of (information_ack h) = h

abbrev pub tail_of : L3Frame → Option Bytes
tail_of (connect_request r) =
    encode_connect_request_tail r.proposed_window r.user_call r.origin_node_call
tail_of (connect_ack a) = some (encode_connect_ack_tail a.accepted_window)
tail_of (disconnect h) = some []
tail_of (information i) = some i.info
tail_of (information_ack h) = some []

-- The opcode is the frame's, and its own fields are callsigns and bytes.
abbrev pub HasOpcode : L3Frame → Type 0
HasOpcode (connect_request r) =
    (opcode r.header ≡ opcode_connect_req)
    × (r.proposed_window < 256)
    × IsWireCall r.user_call
    × IsWireCall r.origin_node_call
HasOpcode (connect_ack a) =
    (opcode a.header ≡ opcode_connect_ack)
    × (a.accepted_window < 256)
    × (a.refused ≡ choke a.header)
HasOpcode (disconnect h) = (opcode h ≡ opcode_disconnect_req) ⊎ (opcode h ≡ opcode_disconnect_ack)
HasOpcode (information i) = opcode i.header ≡ opcode_information
HasOpcode (information_ack h) = opcode h ≡ opcode_information_ack

valid_first :
    (w : Bytes) (b : ℕ)
    → length w ≡ 6
    → all_callsign_chars w ≡ true
    → wire_call_is_valid (w ++ b ∷ []) ≡ true
unfolding wire_call_is_valid
valid_first w b l h = rw (take-append_left 6 w (b ∷ []) l) h

decode_tail_bytes :
    (h : L3Header) (w s t : ℕ) (u o : Bytes)
    → length u ≡ 6
    → length o ≡ 6
    → all_callsign_chars u ≡ true
    → all_callsign_chars o ≡ true
    → decode_connect_request h (w ∷ (u ++ s ∷ []) ++ (o ++ t ∷ []))
      ≡ some (
          connect_request (record {
            header = h;
            proposed_window = w;
            user_call = decode_wire_call (u ++ s ∷ []);
            origin_node_call = decode_wire_call (o ++ t ∷ []);
          }))
decode_tail_bytes h w s t u o lu lo vu vo =
    let x = Six-length u lu in
    let y = Six-length o lo in
    let p : wire_call_is_valid (x.a ∷ x.b ∷ x.c ∷ x.d ∷ x.e ∷ x.f ∷ s ∷ []) ≡ true =
      rw x.is at (valid_first u s lu vu) in
    let q : wire_call_is_valid (y.a ∷ y.b ∷ y.c ∷ y.d ∷ y.e ∷ y.f ∷ t ∷ []) ≡ true =
      rw y.is at (valid_first o t lo vo) in
    rw (x.is, y.is) (unfold decode_connect_request in ground (arith, p, q))

connect_request_tail :
    (h : L3Header) (w : ℕ) (user origin : Text)
    → w < 256
    → IsWireCall user
    → IsWireCall origin
    → (tail : Bytes) × (encode_connect_request_tail w user origin ≡ some tail)
      × (decode_connect_request h tail
          ≡ some (
              connect_request (record {
                header = h;
                proposed_window = w;
                user_call = user;
                origin_node_call = origin;
              })))
connect_request_tail h w user origin l cu co =
    let x = IsWireCall-wire cu in
    let y = IsWireCall-wire co in
    let m : w % 256 ≡ w = omega arith in
    (
      w ∷ (x.first ++ x.last ∷ []) ++ (y.first ++ y.last ∷ []),
      unfold encode_connect_request_tail in rw (x.encoded, y.encoded) (rw m),
      decode_tail_bytes h w x.last y.last x.first y.first x.six y.six x.valid y.valid
          ∙ (rw (x.decoded x.last refl, y.decoded y.last refl)),
    )

decode-tail_of :
    (f : L3Frame)
    → HasOpcode f
    → (tail : Bytes) × (tail_of f ≡ some tail) × (decode_payload (header_of f) tail ≡ some f)
unfolding decode_payload
decode-tail_of (connect_request r) v =
    let (tail, e, d) =
      connect_request_tail r.header r.proposed_window r.user_call r.origin_node_call v.1 v.2 v.3 in
    (tail, e, ground (arith, d))
decode-tail_of (connect_ack a) v = (
  a.accepted_window ∷ [],
  unfold encode_connect_ack_tail in ground arith,
  unfold decode_connect_ack in ground arith,
)
decode-tail_of (disconnect h) v = ([], refl, ground arith)
decode-tail_of (information i) v = (i.info, refl, ground arith)
decode-tail_of (information_ack h) v = ([], refl, ground arith)

length-encoded_bytes : (h : L3Header) (v : IsHeader h) → length (encoded_bytes h v) ≡ 20
unfolding encoded_bytes header_bytes
length-encoded_bytes h v =
    let x = Six-length _ (IsWireCall-wire v.origin).six in
    let y = Six-length _ (IsWireCall-wire v.dest).six in rw (x.is, y.is)

-- A frame of each of the five kinds encodes without an error and decodes to itself, provided that
-- its addresses are of at most six capital letters and digits with an SSID below 16, its fields
-- are below 256, its opcode is that of its kind, and the refusal of a CONNECT ACK is its choke
-- flag.
pub decode-encode_l3_frame :
    (f : L3Frame)
    → IsHeader (header_of f)
    → HasOpcode f
    → (bytes : Bytes) × ((tail_of f >>= encode_l3_frame (header_of f)) ≡ some bytes)
      × (decode_l3_frame bytes ≡ some f)
decode-encode_l3_frame f v o =
    let (tail, e, d) = decode-tail_of f o in
    let h = header_of f in
    (
      encoded_bytes h v ++ tail,
      rw e (unfold encode_l3_frame in rw (encode_l3_header_lem h v)),
      unfold decode_l3_frame in
          rw (decode_l3_header_lem h v tail)
            (rw (drop-append_left 20 (encoded_bytes h v) tail (length-encoded_bytes h v)) d),
    )

wire_chars-CallChars : (w : Bytes) → all_callsign_chars w ≡ true → CallChars (wire_chars w)
unfolding all_callsign_chars wire_chars
wire_chars-CallChars [] h = tt
wire_chars-CallChars (b ∷ w) h = ground (arith, wire_chars-CallChars w)

length-wire_chars : (w : Bytes) → length (wire_chars w) ≤ length w
unfolding wire_chars
length-wire_chars [] = omega arith
length-wire_chars (b ∷ w) = ground (arith, length-wire_chars w)

valid-IsWireCall : (w : Bytes) → wire_call_is_valid w ≡ true → IsWireCall (decode_wire_call w)
unfolding wire_call_is_valid decode_wire_call
valid-IsWireCall w h = record {
  call = wire_chars (take 6 w);
  ssid = wire_ssid (get_or w 6 0);
  chars = wire_chars-CallChars (take 6 w) h;
  short = omega (arith, length-wire_chars (take 6 w), length-take 6 w);
  ssid_range = omega arith;
  shown = refl;
}

connect_request_inv :
    (h : L3Header) (rest : Bytes) (r : ConnectRequest)
    → decode_connect_request h rest ≡ some (connect_request r)
    → (wire_call_is_valid (take 7 (drop 1 rest)) ≡ true)
      × (wire_call_is_valid (take 7 (drop 8 rest)) ≡ true)
      × (r.user_call ≡ decode_wire_call (take 7 (drop 1 rest)))
      × (r.origin_node_call ≡ decode_wire_call (take 7 (drop 8 rest)))
unfolding decode_connect_request
connect_request_inv h rest r e = ground arith

decode_payload_inv :
    (h : L3Header) (rest : Bytes) (r : ConnectRequest)
    → decode_payload h rest ≡ some (connect_request r)
    → decode_connect_request h rest ≡ some (connect_request r)
decode_payload_inv h [] r e = unfold decode_payload decode_connect_ack in ground arith
decode_payload_inv h (b ∷ rest) r e = unfold decode_payload decode_connect_ack in ground arith

-- A CONNECT REQUEST that is decoded carries, for its user and its origin node, at most six capital
-- letters and digits, possibly none, and an SSID below 16 that is left out if it is 0, whatever
-- the bytes were.
pub decode_l3_frame_callsigns :
    (bytes : Bytes) (r : ConnectRequest)
    → decode_l3_frame bytes ≡ some (connect_request r)
    → IsWireCall r.user_call × IsWireCall r.origin_node_call
unfolding decode_l3_frame
decode_l3_frame_callsigns bytes r e =
    let (h, _, p) =
      >>=-eq-some (decode_l3_header bytes) (λ h. decode_payload h (drop 20 bytes)) e in
    let rest = drop 20 bytes in
    let (u, o, eu, eo) = connect_request_inv h rest r (decode_payload_inv h rest r p) in
    (
      rw eu (valid-IsWireCall (take 7 (drop 1 rest)) u),
      rw eo (valid-IsWireCall (take 7 (drop 8 rest)) o),
    )
