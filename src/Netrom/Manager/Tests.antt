-- ===== src/Netrom/Manager/Tests.antt =====
-- Runs of the circuit manager.
use bbs.Prelude.{
  ℕ, zero, suc, ◌≡◌, refl, true, false, [], ◌∷◌, none, some, arith, get_elem?, nat_eq, pair_eq,
  pair_beq_iff,
}
use bbs.Text.{codes}
use bbs.Dict.{Dict, get, has, put}
use bbs.Ax25.NetromFrame.Header.{L3Header}
use bbs.Ax25.NetromFrame.Frame.{ConnectRequest, L3Frame, disconnect}
use bbs.Netrom.Circuit.{NetromCircuit, closed, disconnecting, connected}
use bbs.Netrom.Manager.{Manager}
use bbs.Netrom.Manager.Tables.{first_free, allocate_local_idx, allocate_local_id}
use bbs.Netrom.Manager.Idle.{cancel_idle_timer}
use bbs.Netrom.Manager.Dispatch.{handle_connect_request, shutdown, dispatch, route_frame}
use bbs.Netrom.Manager.Originate.{add_outbound, originate_start, originate_timeout}
use bbs.Netrom.Manager.Indexed.{IsIndexed}
use bbs.Netrom.Manager.Indexed.Dispatched.{dispatch-IsIndexed}
use bbs.Netrom.Manager.Removal.{shutdown-closes, originate_timeout-remote}
use bbs.Netrom.Manager.Allocation.{Accepted, requested, handle_connect_request_accepts}

abbrev request : ConnectRequest
request = record {
  header = record {
    origin_call = codes "KI6ZHD-5";
    dest_call = codes "W6ELA-1";
    ttl = 25;
    circuit_idx = 1;
    circuit_id = 9;
    tx_seq = 0;
    rx_seq = 0;
    opcode_flags = 1;
  };
  proposed_window = 4;
  user_call = codes "K6FB";
  origin_node_call = codes "KI6ZHD-5";
}

abbrev manager : Manager
manager = record {
  local_call = codes "W6ELA-1";
  via_node = codes "KI6ZHD-5";
  default_ttl = 25;
  info_mtu = 108;
  link_idle_timeout = 60;
  idle_handle = true;
  closed = false;
  link = record { written = []; closing = false };
  heap = [];
  by_local_key = [];
  by_remote_key = [];
  used_local_idx = [];
  next_local_id = 0;
  user_tasks = [];
  cancelled = [];
}

no_circuit : get manager.by_remote_key (requested request) ≡ none
unfolding get
no_circuit = refl

handle_connect_request_accepts_example :
    (m' : Manager) × (handle_connect_request request manager ≡ some m')
    × Accepted request manager m'
handle_connect_request_accepts_example =
    handle_connect_request_accepts request manager no_circuit (omega arith)

abbrev indices : ℕ → Dict ℕ (Unit {0})
indices zero = []
indices (suc n) = (n, tt) ∷ indices n

abbrev full : Manager
full = record manager { used_local_idx = indices 256 }

abbrev refusal : L3Header
refusal = record {
  origin_call = codes "W6ELA-1";
  dest_call = codes "KI6ZHD-5";
  ttl = 25;
  circuit_idx = 1;
  circuit_id = 9;
  tx_seq = 0;
  rx_seq = 0;
  opcode_flags = 130;
}

-- A circuit whose DISCONNECT REQUEST is out.
abbrev leaving : NetromCircuit
leaving = record {
  local_idx = 0;
  local_id = 7;
  remote_idx = 1;
  remote_id = 9;
  local_call = codes "W6ELA-1";
  user_call = codes "K6FB";
  origin_node_call = codes "KI6ZHD-5";
  via_node = codes "KI6ZHD-5";
  state = disconnecting;
  vs = 0;
  vr = 0;
  va = 0;
  accepted_window = 4;
  info_mtu = 108;
  reassembly = [];
  pending_outbound = [];
  window_event = true;
  connected_event = true;
  closed_event = false;
  reader_data = [];
  reader_eof = false;
  writer_closing = true;
  disc_guard = true;
}

abbrev closing : Manager
closing = record manager {
  heap = leaving ∷ [];
  by_local_key = ((0, 7), 0) ∷ [];
  by_remote_key = ((1, 9), 0) ∷ [];
  used_local_idx = (0, tt) ∷ [];
  next_local_id = 7;
}

second_free : first_free 256 0 closing.used_local_idx ≡ some 1
unfolding first_free has
second_free = refl

keyed : get closing.by_local_key (0, 7) ≡ some 0
unfolding get
keyed = refl

shutdown-closes_example :
    ((c' : NetromCircuit) × (get_elem? (shutdown closing).heap 0 ≡ some c') × (c'.state ≡ closed))
    × ((shutdown closing).by_local_key ≡ [])
    × ((shutdown closing).by_remote_key ≡ [])
    × ((shutdown closing).used_local_idx ≡ [])
    × ((shutdown closing).user_tasks ≡ [])
    × ((shutdown closing).link ≡ closing.link)
shutdown-closes_example = shutdown-closes closing (0, 7) 0 leaving keyed refl

-- An inbound circuit whose peer uses index 0 and id 0, and a circuit that is originated beside it.
abbrev inbound : NetromCircuit
inbound = record leaving { remote_idx = 0; remote_id = 0; state = connected }

abbrev one_circuit : Manager
one_circuit = record manager {
  heap = inbound ∷ [];
  by_local_key = ((0, 7), 0) ∷ [];
  by_remote_key = ((0, 0), 0) ∷ [];
  used_local_idx = (0, tt) ∷ [];
  next_local_id = 7;
}

abbrev calling : Manager
calling =
    (add_outbound (codes "K6FB-5") (codes "K6FB") 4 1 8 (record one_circuit {
      idle_handle = false;
      used_local_idx = (0, tt) ∷ (1, tt) ∷ [];
      next_local_id = 8;
    })).1

started : originate_start (codes "K6FB-5") (codes "K6FB") 4 one_circuit ≡ some (1, calling)
unfolding originate_start cancel_idle_timer allocate_local_idx allocate_local_id add_outbound
    first_free has put
started = refl

originate_timeout-remote_example : get (originate_timeout 1 calling).by_remote_key (0, 0) ≡ none
originate_timeout-remote_example =
    originate_timeout-remote (codes "K6FB-5") (codes "K6FB") 4 one_circuit calling calling 1 (0, 0)
      started refl

closing-IsIndexed : IsIndexed closing
unfolding get has
closing-IsIndexed = record {
  used = λ k r p. ground (arith, pair_beq_iff (0, 7) k);
  unique = λ i a b r s p q. ground arith;
  addressed = λ k r p.
      (leaving, ground (arith, pair_beq_iff (0, 7) k), ground (arith, pair_beq_iff (0, 7) k));
}

-- The DISCONNECT ACK that the circuit waits for.
abbrev goodbye : L3Frame
goodbye = disconnect (record {
  origin_call = codes "KI6ZHD-5";
  dest_call = codes "W6ELA-1";
  ttl = 25;
  circuit_idx = 0;
  circuit_id = 7;
  tx_seq = 0;
  rx_seq = 0;
  opcode_flags = 4;
})

goodbye_run : dispatch goodbye closing ≡ some (route_frame goodbye closing)
unfolding dispatch
goodbye_run = refl

dispatch-IsIndexed_example : IsIndexed (route_frame goodbye closing)
dispatch-IsIndexed_example =
    dispatch-IsIndexed goodbye closing (route_frame goodbye closing) goodbye_run closing-IsIndexed
