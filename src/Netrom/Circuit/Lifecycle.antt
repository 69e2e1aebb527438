-- ===== src/Netrom/Circuit/Lifecycle.antt =====
-- Closing a circuit, from bbs/netrom/circuit.py.
use bbs.Prelude.{Bool, true, false, if◌then◌else◌}
use bbs.Netrom.Circuit.{
  CircuitState, disconnecting, closed, NetromCircuit, Link, send_disconnect_request,
}

abbrev pub set_closed_in : CircuitState → NetromCircuit → NetromCircuit
set_closed_in closed c = c
set_closed_in _ c = record c {
  state = closed;
  disc_guard = false;
  window_event = true;
  connected_event = true;
  reader_eof = true;
  closed_event = true;
}

unfoldable pub set_closed : NetromCircuit → NetromCircuit
set_closed c = set_closed_in c.state c

abbrev pub initiate_disconnect_in : CircuitState → NetromCircuit → Link → NetromCircuit × Link
initiate_disconnect_in disconnecting c link = (c, link)
initiate_disconnect_in closed c link = (c, link)
initiate_disconnect_in _ c link =
    (record c { state = disconnecting; disc_guard = true }, send_disconnect_request c link)

-- The guard timer is armed on the running event loop.
unfoldable pub initiate_disconnect : NetromCircuit → Link → NetromCircuit × Link
unfolding send_disconnect_request
initiate_disconnect c link = initiate_disconnect_in c.state c link

abbrev pub reap_in : CircuitState → NetromCircuit → NetromCircuit × Bool
reap_in disconnecting c = (set_closed c, true)
reap_in _ c = (c, false)

-- The guard timer fires. The second part says whether the manager is told to remove the circuit.
unfoldable pub reap_disconnecting : NetromCircuit → NetromCircuit × Bool
unfolding set_closed
reap_disconnecting c = let c' = record c { disc_guard = false } in reap_in c'.state c'

-- writer.close()
unfoldable pub writer_close : NetromCircuit → Link → NetromCircuit × Link
unfolding initiate_disconnect
writer_close c link =
    if c.writer_closing
    then (c, link)
    else initiate_disconnect (record c { writer_closing = true }) link
