-- ===== src/Netrom/Manager/Indexed/Frames.antt =====
-- The tables of the circuit manager under a frame for an open circuit.
use bbs.Prelude.{◌≡◌, some, get_elem?, arith, nat_eq, pair_eq, inl, inr, Option-cases}
use bbs.Dict.{get}
use bbs.Ax25.NetromFrame.Frame.{
  ConnectAck, Information, L3Frame, connect_request, connect_ack, disconnect, information,
  information_ack,
}
use bbs.Ax25.NetromFrame.Header.{L3Header}
use bbs.Netrom.Circuit.{NetromCircuit, Link, advance_va}
use bbs.Netrom.Circuit.Lifecycle.{set_closed}
use bbs.Netrom.Circuit.Inbound.{
  handle_information, handle_information_ack, handle_connect_ack, handle_disconnect_request,
  handle_disconnect_ack, reassemble,
}
use bbs.Netrom.Manager.{Manager, Key, Ref, local_key, update}
use bbs.Netrom.Manager.Dispatch.{handle_frame, route_frame, header_of}
use bbs.Netrom.Manager.Indexed.{IsIndexed, update-IsIndexed, remove_circuit-IsIndexed}

handle_information_key :
    (c : NetromCircuit) (i : Information) (link : Link)
    → local_key (handle_information c i link).0 ≡ local_key c
unfolding handle_information reassemble advance_va
handle_information_key c i link = ground arith

handle_information_ack_key :
    (c : NetromCircuit) (h : L3Header) → local_key (handle_information_ack c h) ≡ local_key c
unfolding handle_information_ack advance_va
handle_information_ack_key c h = ground arith

set_closed_key : (c : NetromCircuit) → local_key (set_closed c) ≡ local_key c
unfolding set_closed
set_closed_key c = ground arith

handle_connect_ack_key :
    (c : NetromCircuit) (a : ConnectAck) → local_key (handle_connect_ack c a) ≡ local_key c
unfolding handle_connect_ack
handle_connect_ack_key c a = ground (arith, set_closed_key c)

handle_disconnect_ack_key : (c : NetromCircuit) → local_key (handle_disconnect_ack c) ≡ local_key c
unfolding handle_disconnect_ack
handle_disconnect_ack_key c = ground (arith, set_closed_key c)

handle_frame-IsIndexed :
    (r : Ref) (c : NetromCircuit) (f : L3Frame) (m : Manager)
    → get m.by_local_key (local_key c) ≡ some r
    → get_elem? m.heap r ≡ some c
    → IsIndexed m
    → IsIndexed (handle_frame r c f m)
unfolding handle_frame
handle_frame-IsIndexed r c (information i) m k p v =
    update-IsIndexed r c (handle_information c i m.link) m p (handle_information_key c i m.link) v
handle_frame-IsIndexed r c (information_ack h) m k p v =
    update-IsIndexed r c (handle_information_ack c h, m.link) m p (handle_information_ack_key c h) v
handle_frame-IsIndexed r c (connect_ack a) m k p v =
    update-IsIndexed r c (handle_connect_ack c a, m.link) m p (handle_connect_ack_key c a) v
handle_frame-IsIndexed r c (connect_request q) m k p v = v
handle_frame-IsIndexed r c (disconnect h) m k p v =
    let asked = handle_disconnect_request c m.link in
    let acked : NetromCircuit × Link = (handle_disconnect_ack c, m.link) in
    let asked_ok : IsIndexed (update r asked m) =
      update-IsIndexed r c asked m p (unfold handle_disconnect_request in set_closed_key c) v in
    let acked_ok : IsIndexed (update r acked m) =
      update-IsIndexed r c acked m p (handle_disconnect_ack_key c) v in
    ground (
      arith,
      remove_circuit-IsIndexed c (update r asked m) r (unfold update in k) asked_ok,
      remove_circuit-IsIndexed c (update r acked m) r (unfold update in k) acked_ok,
    )

pub route_frame-IsIndexed : (f : L3Frame) (m : Manager) → IsIndexed m → IsIndexed (route_frame f m)
unfolding route_frame
route_frame-IsIndexed f m v =
    let key : Key = ((header_of f).circuit_idx, (header_of f).circuit_id) in
    elim (Option-cases (get m.by_local_key key)) [
      | inl p ↦ rw (p, route_frame) v
      | inr (r, p) ↦
          let (c, found, keyed) = v.addressed key r p in
          rw (p, route_frame) (rw found (handle_frame-IsIndexed r c f m (rw keyed p) found v))
    ]
