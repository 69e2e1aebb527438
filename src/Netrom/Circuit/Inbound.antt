-- ===== src/Netrom/Circuit/Inbound.antt =====
-- The handlers of decoded frames of bbs/netrom/circuit.py.
use bbs.Prelude.{ℕ, ◌+◌, ◌%◌, true, not, List, [], ◌∷◌, ◌++◌, if◌then◌else◌, ltb, ◌==◌, length}
use Prim.Native.Nat.{min}
use bbs.Ax25.NetromFrame.Wire.{Bytes}
use bbs.Ax25.NetromFrame.Header.{more_follows}
use bbs.Ax25.NetromFrame.Frame.{Information, ConnectAck}
use bbs.Netrom.Circuit.{
  CircuitState, awaiting_connect, connected, disconnecting, NetromCircuit, Link,
  max_reassembly_bytes, advance_va, send_info_ack, send_disconnect_ack,
}
use bbs.Netrom.Circuit.Lifecycle.{set_closed}
use bbs.Ax25.NetromFrame.Header.{L3Header}

-- `if payload: self.reader.feed_data(payload)`
abbrev pub feed_data : Bytes → List Bytes → List Bytes
feed_data [] fed = fed
feed_data (b ∷ bytes) fed = fed ++ (b ∷ bytes) ∷ []

-- The reassembly buffer takes the fragment, and is flushed to the reader behind the last one.
unfoldable pub reassemble : NetromCircuit → Information → NetromCircuit
reassemble c frame =
    let partial = c.reassembly ++ frame.info in
    if ltb max_reassembly_bytes (length c.reassembly + length frame.info)
    then record c { reassembly = [] }
    else if more_follows frame.header
    then record c { reassembly = partial }
    else record c { reassembly = []; reader_data = feed_data partial c.reader_data }

unfoldable pub handle_information : NetromCircuit → Information → Link → NetromCircuit × Link
handle_information c frame link =
    let h = frame.header in
    let repeated = advance_va c h.rx_seq in
    let r = reassemble c frame in
    let fresh = advance_va (record r { vr = (r.vr + 1) % 256 }) h.rx_seq in
    if not (h.tx_seq % 256 == c.vr)
    then (repeated, send_info_ack repeated link)
    else (fresh, send_info_ack fresh link)

unfoldable pub handle_information_ack : NetromCircuit → L3Header → NetromCircuit
unfolding advance_va
handle_information_ack c header = advance_va c header.rx_seq

-- min(self.accepted_window, frame.accepted_window), where the frame names a window.
abbrev pub clamp_window : ℕ → ℕ → ℕ
clamp_window ours theirs = if theirs == 0 then ours else min ours theirs

abbrev pub connect_ack_in : CircuitState → NetromCircuit → ConnectAck → NetromCircuit
connect_ack_in awaiting_connect c frame = if frame.refused then set_closed c else record c {
  remote_idx = frame.header.tx_seq % 256;
  remote_id = frame.header.rx_seq % 256;
  accepted_window = clamp_window c.accepted_window frame.accepted_window;
  state = connected;
  connected_event = true;
}
connect_ack_in _ c frame = c

unfoldable pub handle_connect_ack : NetromCircuit → ConnectAck → NetromCircuit
unfolding set_closed
handle_connect_ack c frame = connect_ack_in c.state c frame

unfoldable pub handle_disconnect_request : NetromCircuit → Link → NetromCircuit × Link
unfolding set_closed send_disconnect_ack
handle_disconnect_request c link = (set_closed c, send_disconnect_ack c link)

abbrev pub disconnect_ack_in : CircuitState → NetromCircuit → NetromCircuit
disconnect_ack_in disconnecting c = set_closed c
disconnect_ack_in _ c = c

unfoldable pub handle_disconnect_ack : NetromCircuit → NetromCircuit
unfolding set_closed
handle_disconnect_ack c = disconnect_ack_in c.state c
