-- ===== src/Netrom/Manager/Dispatch.antt =====
-- `dispatch` of NetromCircuitManager, the end of a session, and the shutdown of the crosslink.
use bbs.Prelude.{
  ℕ, ◌+◌, true, false, List, [], ◌∷◌, ◌++◌, Option, none, some, if◌then◌else◌, get_elem?, set,
  length, ◌>>=◌, ◌==◌, leb, nat_eq, pair_eq,
}
use Prim.Native.Nat.{min, max}
use bbs.Dict.{get, put, remove, values, keys}
use bbs.Ax25.NetromFrame.Header.{
  L3Header, opcode, opcode_disconnect_req, opcode_connect_ack, flag_choke,
}
use bbs.Ax25.NetromFrame.Frame.{
  ConnectRequest, L3Frame, connect_request, connect_ack, disconnect, information, information_ack,
}
use bbs.Netrom.Circuit.{
  NetromCircuit, connect_ack_tail, send_l3, send_connect_ack, max_window, is_connected,
}
use bbs.Netrom.Circuit.Lifecycle.{set_closed, initiate_disconnect, reap_disconnecting}
use bbs.Netrom.Circuit.Inbound.{
  handle_information, handle_information_ack, handle_connect_ack, handle_disconnect_request,
  handle_disconnect_ack,
}
use bbs.Netrom.Manager.{Manager, Key, Ref, max_local_circuits, local_key, update}
use bbs.Netrom.Manager.Idle.{cancel_idle_timer}
use bbs.Netrom.Manager.Tables.{open_circuit, remove_circuit}

unfoldable pub send_connect_refusal : ConnectRequest → Manager → Manager
unfolding send_l3
send_connect_refusal req m = record m {
  link =
      send_l3
        (record {
          origin_call = m.local_call;
          dest_call = req.origin_node_call;
          ttl = m.default_ttl;
          circuit_idx = req.header.circuit_idx;
          circuit_id = req.header.circuit_id;
          tx_seq = 0;
          rx_seq = 0;
          opcode_flags = opcode_connect_ack + flag_choke;
        })
        (connect_ack_tail 0) m.link;
}

-- What a reference stands for, with the heap's bounds written out.
abbrev pub at_ref {ℓ} : {A : Type ℓ} → Option NetromCircuit → A → (NetromCircuit → A) → A
at_ref none missing f = missing
at_ref (some c) missing f = f c

-- The CONNECT ACK of a duplicate request is sent again.
unfoldable pub resend_ack : Ref → Manager → Manager
unfolding send_connect_ack update
resend_ack r m =
    at_ref (get_elem? m.heap r) m
      (λ c. update r (send_connect_ack c c.accepted_window false m.link) m)

-- Behind `_open_circuit`: the CONNECT ACK goes out, and the BBS session is started as a task.
unfoldable pub start_session : ℕ → Ref × Manager → Manager
unfolding send_connect_ack update
start_session window (r, m) = at_ref (get_elem? m.heap r) m (λ c.
    record (update r (send_connect_ack c window false m.link) m) {
      user_tasks = put m.user_tasks (local_key c) r;
    })

abbrev pub clamp_proposed : ℕ → ℕ
clamp_proposed proposed = max 1 (min max_window proposed)

-- `none` is an exception.
unfoldable pub handle_connect_request : ConnectRequest → Manager → Option Manager
handle_connect_request frame m =
    let remote : Key = (frame.header.circuit_idx, frame.header.circuit_id) in
    let window = clamp_proposed frame.proposed_window in
    elim (get m.by_remote_key remote) [
      | some existing ↦ some (resend_ack existing m)
      | none ↦
          if leb max_local_circuits (length m.used_local_idx)
          then some (send_connect_refusal frame m)
          else do opened ← open_circuit frame window m; some (start_session window opened)
    ]

-- A frame for the circuit `c` behind the reference `r`. A Disconnect also removes the circuit.
unfoldable pub handle_frame : Ref → NetromCircuit → L3Frame → Manager → Manager
handle_frame r c (information i) m = update r (handle_information c i m.link) m
handle_frame r c (information_ack h) m = update r (handle_information_ack c h, m.link) m
handle_frame r c (connect_ack a) m = update r (handle_connect_ack c a, m.link) m
handle_frame r c (connect_request q) m = m
handle_frame r c (disconnect h) m =
    if opcode h == opcode_disconnect_req
    then remove_circuit c (update r (handle_disconnect_request c m.link) m)
    else remove_circuit c (update r (handle_disconnect_ack c, m.link) m)

abbrev pub header_of : L3Frame → L3Header
header_of (connect_request q) = q.header
header_of (connect_ack a) = a.header
header_of (disconnect h) = h
header_of (information i) = i.header
header_of (information_ack h) = h

-- A frame for an unknown circuit is dropped.
unfoldable pub route_frame : L3Frame → Manager → Manager
route_frame frame m =
    elim (get m.by_local_key ((header_of frame).circuit_idx, (header_of frame).circuit_id)) [
      | none ↦ m
      | some r ↦ at_ref (get_elem? m.heap r) m (λ c. handle_frame r c frame m)
    ]

unfoldable pub dispatch : L3Frame → Manager → Option Manager
dispatch (connect_request q) m = handle_connect_request q m
dispatch (connect_ack a) m = some (route_frame (connect_ack a) m)
dispatch (disconnect h) m = some (route_frame (disconnect h) m)
dispatch (information i) m = some (route_frame (information i) m)
dispatch (information_ack h) m = some (route_frame (information_ack h) m)

-- The `finally` of `_run_user_session`: the BBS session of the circuit has ended.
unfoldable pub end_session : Ref → Manager → Manager
end_session r m = at_ref (get_elem? m.heap r) m (λ c.
    let m' = if is_connected c.state then update r (initiate_disconnect c m.link) m else m in
    record m' { user_tasks = remove m'.user_tasks (local_key c) })

-- The guard timer of the circuit behind `r` fires.
unfoldable pub reap_circuit : Ref → Manager → Manager
reap_circuit r m = at_ref (get_elem? m.heap r) m (λ c.
    let (c', gone) = reap_disconnecting c in
    let m' = update r (c', m.link) m in if gone then remove_circuit c' m' else m')

-- Every circuit of the table is closed.
unfoldable pub close_all : List Ref → List NetromCircuit → List NetromCircuit
close_all [] heap = heap
close_all (r ∷ refs) heap =
    close_all refs (at_ref (get_elem? heap r) heap (λ c. set heap r (set_closed c)))

unfoldable pub shutdown : Manager → Manager
unfolding cancel_idle_timer
shutdown m = record (cancel_idle_timer m) {
  closed = true;
  heap = close_all (values m.by_local_key) m.heap;
  cancelled = m.cancelled ++ keys m.user_tasks;
  by_local_key = [];
  by_remote_key = [];
  used_local_idx = [];
  user_tasks = [];
}
