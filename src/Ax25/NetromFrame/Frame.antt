-- ===== src/Ax25/NetromFrame/Frame.antt =====
-- The L3/L4 frames of bbs/ax25/netrom_frame.py, by opcode.
use bbs.Prelude.{
  ℕ, ◌%◌, Bool, true, ◌&&◌, ◌||◌, not, [], ◌∷◌, ◌++◌, Option, none, some, ltb, leb, ◌==◌,
  if◌then◌else◌, length, take, drop, get_or, ◌>>=◌,
}
use bbs.Text.{Text}
use bbs.Ax25.NetromFrame.Wire.{Bytes, wire_char, encode_wire_call, decode_wire_call}
use bbs.Ax25.NetromFrame.Header.{
  L3Header, opcode, choke, encode_l3_header, decode_l3_header, l3_header_len, opcode_connect_req,
  opcode_connect_ack, opcode_disconnect_req, opcode_disconnect_ack, opcode_information,
  opcode_information_ack,
}

pub record ConnectRequest : Type 0 where
  pub header : L3Header
  pub proposed_window : ℕ
  pub user_call : Text
  pub origin_node_call : Text

pub record ConnectAck : Type 0 where
  pub header : L3Header
  pub accepted_window : ℕ
  pub refused : Bool

pub record Information : Type 0 where
  pub header : L3Header
  pub info : Bytes

-- `L3Frame`; a Disconnect and an InformationAck hold only their header.
pub data L3Frame : Type 0 where
  connect_request : ConnectRequest → L3Frame
  connect_ack : ConnectAck → L3Frame
  disconnect : L3Header → L3Frame
  information : Information → L3Frame
  information_ack : L3Header → L3Frame

abbrev pub is_netrom_callsign_char : ℕ → Bool
is_netrom_callsign_char ch =
    ch == 0 || ch == 32 || (leb 48 ch && leb ch 57) || (leb 65 ch && leb ch 90)

unfoldable pub all_callsign_chars : Bytes → Bool
all_callsign_chars [] = true
all_callsign_chars (b ∷ bytes) = is_netrom_callsign_char (wire_char b) && all_callsign_chars bytes

unfoldable pub wire_call_is_valid : Bytes → Bool
unfolding all_callsign_chars
wire_call_is_valid bytes = all_callsign_chars (take 6 bytes)

unfoldable pub encode_l3_frame : L3Header → Bytes → Option Bytes
encode_l3_frame header payload = do out ← encode_l3_header header; some (out ++ payload)

unfoldable pub encode_connect_request_tail : ℕ → Text → Text → Option Bytes
encode_connect_request_tail proposed_window user_call origin_node = do
  user ← encode_wire_call user_call
  origin ← encode_wire_call origin_node
  some ((proposed_window % 256) ∷ user ++ origin)

unfoldable pub encode_connect_ack_tail : ℕ → Bytes
encode_connect_ack_tail accepted_window = (accepted_window % 256) ∷ []

-- The branch of OPCODE_CONNECT_REQ.
unfoldable pub decode_connect_request : L3Header → Bytes → Option L3Frame
unfolding wire_call_is_valid
decode_connect_request header rest =
    let user_wire = take 7 (drop 1 rest) in
    let origin_wire = take 7 (drop 8 rest) in
    if ltb (length rest) 15
    then none
    else if not (wire_call_is_valid user_wire && wire_call_is_valid origin_wire)
    then none
    else some (
        connect_request (record {
          header = header;
          proposed_window = get_or rest 0 0;
          user_call = decode_wire_call user_wire;
          origin_node_call = decode_wire_call origin_wire;
        }))

-- The branch of OPCODE_CONNECT_ACK.
unfoldable pub decode_connect_ack : L3Header → Bytes → Option L3Frame
decode_connect_ack header [] = none
decode_connect_ack header (window ∷ rest) =
    some
      (connect_ack (record { header = header; accepted_window = window; refused = choke header }))

-- The chain of tests on the opcode.
unfoldable pub decode_payload : L3Header → Bytes → Option L3Frame
unfolding decode_connect_request decode_connect_ack
decode_payload header rest =
    if opcode header == opcode_connect_req
    then decode_connect_request header rest
    else if opcode header == opcode_connect_ack
    then decode_connect_ack header rest
    else if opcode header == opcode_information
    then some (information (record { header = header; info = rest }))
    else if opcode header == opcode_information_ack
    then some (information_ack header)
    else if opcode header == opcode_disconnect_req || opcode header == opcode_disconnect_ack
    then some (disconnect header)
    else none

unfoldable pub decode_l3_frame : Bytes → Option L3Frame
decode_l3_frame bytes = do
  header ← decode_l3_header bytes
  decode_payload header (drop l3_header_len bytes)
