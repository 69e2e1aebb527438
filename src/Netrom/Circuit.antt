-- ===== src/Netrom/Circuit.antt =====
-- bbs/netrom/circuit.py, the NetromCircuit: its state, the frames that it sends and its writer. An
-- asyncio event is its flag, a timer whether it is armed, and the reader what was fed to it.
-- `Inbound` has the handlers of decoded frames, and `Lifecycle` the closing of a circuit.
pub mod Lifecycle
pub mod Inbound
pub mod Outbound
use bbs.Prelude.{
  ℕ, zero, suc, ◌+◌, ◌-◌, ◌%◌, Bool, true, false, List, [], ◌∷◌, ◌++◌, Option, none, some,
  if◌then◌else◌, leb, ltb, ◌==◌,
}
use bbs.Text.{Text}
use bbs.Ax25.NetromFrame.Wire.{Bytes}
use bbs.Ax25.NetromFrame.Header.{
  L3Header, opcode_connect_req, opcode_connect_ack, opcode_disconnect_req, opcode_disconnect_ack,
  opcode_information, opcode_information_ack, flag_choke, flag_more_follows,
}

pub data CircuitState : Type 0 where
  connecting awaiting_connect connected disconnecting closed : CircuitState

abbrev pub is_connected : CircuitState → Bool
is_connected connected = true
is_connected _ = false

abbrev pub default_ttl : ℕ
default_ttl = 25

abbrev pub max_window : ℕ
max_window = 7

abbrev pub max_reassembly_bytes : ℕ
max_reassembly_bytes = 65536

-- The payload argument of `encode_l3_frame`, before its encoding.
pub data Payload : Type 0 where
  connect_request_tail : ℕ → Text → Text → Payload
  connect_ack_tail : ℕ → Payload
  info_bytes : Bytes → Payload

-- One frame handed to the AX.25 writer.
pub record Sent : Type 0 where
  pub header : L3Header
  pub payload : Payload

-- The AX.25 writer of the crosslink: the frames written so far, and whether it is closing.
pub record Link : Type 0 where
  pub written : List Sent
  pub closing : Bool

pub record NetromCircuit : Type 0 where
  pub local_idx : ℕ
  pub local_id : ℕ
  pub remote_idx : ℕ
  pub remote_id : ℕ
  pub local_call : Text
  pub user_call : Text
  pub origin_node_call : Text
  pub via_node : Text
  pub state : CircuitState
  pub vs : ℕ
  pub vr : ℕ
  pub va : ℕ
  pub accepted_window : ℕ
  pub info_mtu : ℕ
  pub reassembly : Bytes
  pub pending_outbound : List (Bytes × Bool)
  pub window_event : Bool
  pub connected_event : Bool
  pub closed_event : Bool
  pub reader_data : List Bytes
  pub reader_eof : Bool
  pub writer_closing : Bool
  pub disc_guard : Bool

unfoldable pub build_header : NetromCircuit → ℕ → L3Header
build_header c flags = record {
  origin_call = c.local_call;
  dest_call = c.origin_node_call;
  ttl = default_ttl;
  circuit_idx = c.remote_idx;
  circuit_id = c.remote_id;
  tx_seq = c.vs;
  rx_seq = c.vr;
  opcode_flags = flags;
}

-- A frame for a writer that is closing is dropped.
unfoldable pub send_l3 : L3Header → Payload → Link → Link
send_l3 header payload link = if link.closing then link else record link {
  written = link.written ++ (record { header = header; payload = payload }) ∷ [];
}

unfoldable pub send_connect_request : NetromCircuit → ℕ → Link → Link
unfolding send_l3
send_connect_request c proposed_window link =
    send_l3
      (record {
        origin_call = c.local_call;
        dest_call = c.origin_node_call;
        ttl = default_ttl;
        circuit_idx = c.local_idx;
        circuit_id = c.local_id;
        tx_seq = 0;
        rx_seq = 0;
        opcode_flags = opcode_connect_req;
      })
      (connect_request_tail proposed_window c.user_call c.local_call) link

abbrev pub ack_header : NetromCircuit → Bool → L3Header
ack_header c refused = record {
  origin_call = c.local_call;
  dest_call = c.origin_node_call;
  ttl = default_ttl;
  circuit_idx = c.remote_idx;
  circuit_id = c.remote_id;
  tx_seq = c.local_idx;
  rx_seq = c.local_id;
  opcode_flags = opcode_connect_ack + (if refused then flag_choke else 0);
}

unfoldable pub send_connect_ack : NetromCircuit → ℕ → Bool → Link → NetromCircuit × Link
unfolding send_l3
send_connect_ack c window refused link =
    let link' = send_l3 (ack_header c refused) (connect_ack_tail window) link in
    (if refused then c else record c { state = connected; connected_event = true }, link')

unfoldable pub send_info_fragment : NetromCircuit → Bytes → Bool → Link → NetromCircuit × Link
unfolding build_header send_l3
send_info_fragment c chunk more link =
    let flags = opcode_information + (if more then flag_more_follows else 0) in
    (record c { vs = (c.vs + 1) % 256 }, send_l3 (build_header c flags) (info_bytes chunk) link)

unfoldable pub send_info_ack : NetromCircuit → Link → Link
unfolding build_header send_l3
send_info_ack c link = send_l3 (build_header c opcode_information_ack) (info_bytes []) link

unfoldable pub send_disconnect_request : NetromCircuit → Link → Link
unfolding build_header send_l3
send_disconnect_request c link = send_l3 (build_header c opcode_disconnect_req) (info_bytes []) link

unfoldable pub send_disconnect_ack : NetromCircuit → Link → Link
unfolding build_header send_l3
send_disconnect_ack c link = send_l3 (build_header c opcode_disconnect_ack) (info_bytes []) link

-- (V(S) - V(A)) & 0xFF; both are below 256.
unfoldable pub frames_in_flight : NetromCircuit → ℕ
frames_in_flight c = (c.vs + 256 - c.va) % 256

unfoldable pub advance_va : NetromCircuit → ℕ → NetromCircuit
advance_va c new_va =
    if new_va % 256 == c.va then c else record c { va = new_va % 256; window_event = true }
