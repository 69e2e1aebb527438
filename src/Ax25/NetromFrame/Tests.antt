-- ===== src/Ax25/NetromFrame/Tests.antt =====
-- Runs of the frame codec of bbs/ax25/netrom_frame.py.
use bbs.Prelude.{◌≡◌, refl, true, [], ◌∷◌, some, arith, ◌>>=◌}
use bbs.Text.{Text, codes, decimal}
use bbs.Ax25.NetromFrame.Wire.{Bytes, show_call, wire_chars, decode_wire_call}
use bbs.Ax25.NetromFrame.Header.{L3Header, decode_l3_header, header_fields}
use bbs.Ax25.NetromFrame.Frame.{
  ConnectRequest, connect_request, encode_l3_frame, decode_l3_frame, encode_connect_request_tail,
  decode_payload, decode_connect_request, wire_call_is_valid, all_callsign_chars,
}
use bbs.Ax25.NetromFrame.Nodes.{NodeEntry, encode_nodes_broadcast, decode_nodes_broadcast}
use bbs.Ax25.NetromFrame.Classifier.{looks_like_netrom_l3}
use bbs.Ax25.NetromFrame.WireLaws.{IsWireCall}
use bbs.Ax25.NetromFrame.HeaderLaws.{IsHeader}
use bbs.Ax25.NetromFrame.FrameLaws.{decode-encode_l3_frame, decode_l3_frame_callsigns}
use bbs.Ax25.NetromFrame.NodesLaws.{IsAlias, decode-encode_nodes_broadcast}

abbrev user : Text
user = codes "W6ELA"

abbrev node : Text
node = codes "KI6ZHD-5"

user-IsWireCall : IsWireCall user
unfolding show_call
user-IsWireCall = record {
  call = user;
  ssid = 0;
  chars = (refl, (refl, (refl, (refl, (refl, tt)))));
  short = omega arith;
  ssid_range = omega arith;
  shown = refl;
}

node-IsWireCall : IsWireCall node
unfolding show_call decimal
node-IsWireCall = record {
  call = codes "KI6ZHD";
  ssid = 5;
  chars = (refl, (refl, (refl, (refl, (refl, (refl, tt))))));
  short = omega arith;
  ssid_range = omega arith;
  shown = refl;
}

abbrev header : L3Header
header = record {
  origin_call = node;
  dest_call = user;
  ttl = 25;
  circuit_idx = 3;
  circuit_id = 200;
  tx_seq = 0;
  rx_seq = 0;
  opcode_flags = 1;
}

header-IsHeader : IsHeader header
header-IsHeader = record {
  origin = node-IsWireCall;
  dest = user-IsWireCall;
  ttl = omega arith;
  circuit_idx = omega arith;
  circuit_id = omega arith;
  tx_seq = omega arith;
  rx_seq = omega arith;
  opcode_flags = omega arith;
}

abbrev request : ConnectRequest
request = record { header = header; proposed_window = 4; user_call = user; origin_node_call = node }

decode-encode_l3_frame_example :
    (bytes : Bytes) × ((encode_connect_request_tail 4 user node >>= encode_l3_frame header)
      ≡ some bytes)
    × (decode_l3_frame bytes ≡ some (connect_request request))
decode-encode_l3_frame_example =
    decode-encode_l3_frame (connect_request request) header-IsHeader
      (refl, omega arith, user-IsWireCall, node-IsWireCall)

-- The bytes of that request.
abbrev request_bytes : Bytes
request_bytes =
    150 ∷ 146 ∷ 108 ∷ 180 ∷ 144 ∷ 136 ∷ 10 ∷ 174 ∷ 108 ∷ 138 ∷ 152 ∷ 130 ∷ 64 ∷ 1 ∷ 25 ∷ 3 ∷ 200 ∷ 0
    ∷ 0 ∷ 1 ∷ 4 ∷ 174 ∷ 108 ∷ 138 ∷ 152 ∷ 130 ∷ 64 ∷ 0 ∷ 150 ∷ 146 ∷ 108 ∷ 180 ∷ 144 ∷ 136 ∷ 10 ∷ []

request_bytes-decoded : decode_l3_frame request_bytes ≡ some (connect_request request)
unfolding decode_l3_frame decode_payload decode_connect_request decode_l3_header header_fields
    wire_call_is_valid all_callsign_chars decode_wire_call show_call decimal wire_chars
    bbs.Text.rstrip
request_bytes-decoded = refl

decode_l3_frame_callsigns_example : IsWireCall user × IsWireCall node
decode_l3_frame_callsigns_example =
    decode_l3_frame_callsigns request_bytes request request_bytes-decoded

abbrev entry : NodeEntry
entry = record { dest_call = node; alias = codes "SCLARA"; neighbor_call = user; quality = 192 }

sclara-IsAlias : IsAlias (codes "SCLARA")
sclara-IsAlias = record { chars = ground arith; short = omega arith }

decode-encode_nodes_broadcast_example :
    (payload : Bytes) × (encode_nodes_broadcast (codes "SCLARA") (entry ∷ []) ≡ some payload)
    × (decode_nodes_broadcast user payload
        ≡ some (record { source_call = user; source_alias = codes "SCLARA"; entries = entry ∷ [] }))
decode-encode_nodes_broadcast_example =
    decode-encode_nodes_broadcast user (codes "SCLARA") (entry ∷ []) sclara-IsAlias (
      record {
        dest = node-IsWireCall;
        nonempty = omega arith;
        alias = sclara-IsAlias;
        neighbor = user-IsWireCall;
        quality = omega arith;
      },
      tt,
    )

request_bytes_look : looks_like_netrom_l3 request_bytes ≡ true
unfolding looks_like_netrom_l3 all_callsign_chars
request_bytes_look = refl
