-- ===== src/Netrom/Manager/Allocation.antt =====
-- The allocators of NetromCircuitManager, and the CONNECT REQUEST handler for a new remote key.
use bbs.Prelude.{
  ℕ, ◌+◌, ◌%◌, ◌≤◌, ◌<◌, ◌≡◌, ◌≢◌, refl, true, false, List, [], ◌∷◌, ◌++◌, none, some, length,
  arith, leb, nat_eq, pair_eq, some_of_ne_none, get_elem?, set, ap, if◌then◌else◌,
}
use Prim.Native.Nat.{min, max}
use bbs.Dict.{get, has, put}
use bbs.Ax25.NetromFrame.Frame.{ConnectRequest}
use bbs.Netrom.Circuit.{
  connecting, connected, NetromCircuit, Link, Sent, connect_ack_tail, send_l3, ack_header,
  max_window,
}
use bbs.Netrom.Manager.{Manager, Key, max_local_circuits, local_key, remote_key}
use bbs.Netrom.Manager.Tables.{first_free, new_circuit, add_inbound, open_circuit}
use bbs.Netrom.Manager.Dispatch.{
  handle_connect_request, send_connect_refusal, start_session, clamp_proposed,
}
use bbs.Netrom.Manager.FreeIndex.{first_free-is_free, first_free_total}

open_circuit_total :
    (q : ConnectRequest) (w : ℕ) (m : Manager)
    → length m.used_local_idx < max_local_circuits
    → open_circuit q w m ≢ none
unfolding open_circuit
open_circuit_total q w m h = ground (arith, first_free_total m.used_local_idx h)

not_raised : (q : ConnectRequest) (m : Manager) → handle_connect_request q m ≢ none
unfolding handle_connect_request
not_raised q m = ground (arith, open_circuit_total q (clamp_proposed q.proposed_window) m)

-- `_handle_connect_request` never raises, in any state of the tables: a full table is refused before
-- the allocator runs, and in a table that is not full the allocator finds an index.
pub handle_connect_request_total :
    (q : ConnectRequest) (m : Manager) → (m' : Manager) × (handle_connect_request q m ≡ some m')
handle_connect_request_total q m = some_of_ne_none (handle_connect_request q m) (not_raised q m)

abbrev pub requested : ConnectRequest → Key
requested q = (q.header.circuit_idx, q.header.circuit_id)

abbrev echo_ack : ConnectRequest → Manager → ℕ → ℕ → ℕ → ℕ → Sent
echo_ack q m ttl tx rx flags = record {
  header = record {
    origin_call = m.local_call;
    dest_call = q.origin_node_call;
    ttl = ttl;
    circuit_idx = q.header.circuit_idx;
    circuit_id = q.header.circuit_id;
    tx_seq = tx;
    rx_seq = rx;
    opcode_flags = flags;
  };
  payload = connect_ack_tail 0;
}

-- With the table full, no circuit of that remote key and a link that is not closing, a CONNECT REQUEST changes nothing but the
-- link: one CONNECT ACK with the refusal flag goes out, echoing the request's index and id.
pub handle_connect_request_full :
    (q : ConnectRequest) (m : Manager)
    → get m.by_remote_key (requested q) ≡ none
    → max_local_circuits ≤ length m.used_local_idx
    → m.link.closing ≡ false
    → handle_connect_request q m
      ≡ some (record m {
        link = record (m.link) {
          written = m.link.written ++ echo_ack q m m.default_ttl 0 0 130 ∷ [];
        };
      })
unfolding handle_connect_request send_connect_refusal
handle_connect_request_full q m new full live = ground arith

-- The link behind one CONNECT ACK with the opcode 2 and no flag; a closing link stays as it is.
abbrev pub answered : ConnectRequest → Manager → NetromCircuit → Link
answered q m c = if m.link.closing then m.link else record (m.link) {
  written =
      m.link.written
      ++ (record {
        header = record {
          origin_call = m.local_call;
          dest_call = q.origin_node_call;
          ttl = 25;
          circuit_idx = q.header.circuit_idx;
          circuit_id = q.header.circuit_id;
          tx_seq = c.local_idx;
          rx_seq = c.local_id;
          opcode_flags = 2;
        };
        payload = connect_ack_tail c.accepted_window;
      })
        ∷ [];
}

-- What accepting a request does: the circuit `c` at the end of the heap is connected, with a free
-- index and the window of the request brought between 1 and 7; both tables, the index set and the
-- session tasks name it; the idle timer is off; and, unless the link is closing, one CONNECT ACK
-- without the refusal flag went out, which echoes the request's index and id and tells the circuit's
-- own, and its window.
pub record Accepted (q : ConnectRequest) (m m' : Manager) : Type 0 where
  pub c : NetromCircuit
  pub heap : m'.heap ≡ m.heap ++ c ∷ []
  pub up : c.state ≡ connected
  pub index_free : has m.used_local_idx c.local_idx ≡ false
  pub index_range : c.local_idx < 256
  pub id : c.local_id ≡ (m.next_local_id + 1) % 256
  pub remote : remote_key c ≡ requested q
  pub user : c.user_call ≡ q.user_call
  pub window_low : 1 ≤ c.accepted_window
  pub window_high : c.accepted_window ≤ max_window
  pub local_table : m'.by_local_key ≡ put m.by_local_key (local_key c) (length m.heap)
  pub remote_table : m'.by_remote_key ≡ put m.by_remote_key (requested q) (length m.heap)
  pub indices : m'.used_local_idx ≡ put m.used_local_idx c.local_idx tt
  pub task : m'.user_tasks ≡ put m.user_tasks (local_key c) (length m.heap)
  pub timer : m'.idle_handle ≡ false
  pub window : c.accepted_window ≡ max 1 (min 7 q.proposed_window)
  pub answer : m'.link ≡ answered q m c

pub get_elem?-last :
    (heap : List NetromCircuit) (c : NetromCircuit)
    → get_elem? (heap ++ c ∷ []) (length heap) ≡ some c
get_elem?-last [] c = refl
get_elem?-last (x ∷ heap) c = get_elem?-last heap c

set-last :
    (heap : List NetromCircuit) (c c' : NetromCircuit)
    → set (heap ++ c ∷ []) (length heap) c' ≡ heap ++ c' ∷ []
set-last [] c c' = refl
set-last (x ∷ heap) c c' = ap (◌∷◌ x) (set-last heap c c')

module _ (q : ConnectRequest) (m : Manager) (i : ℕ) where
  abbrev id : ℕ
  id = (m.next_local_id + 1) % 256

  abbrev window : ℕ
  window = clamp_proposed q.proposed_window

  -- The manager behind the two allocators, and the circuit as the constructor makes it.
  abbrev allocated : Manager
  allocated = record m {
    idle_handle = false;
    used_local_idx = put m.used_local_idx i tt;
    next_local_id = id;
  }

  abbrev opened : NetromCircuit
  opened = new_circuit allocated i id (requested q) q.user_call q.origin_node_call connecting window

  abbrev served : NetromCircuit
  served = record opened { state = connected; connected_event = true }

  abbrev accepted : Manager
  accepted = record allocated {
    heap = m.heap ++ served ∷ [];
    link = send_l3 (ack_header served false) (connect_ack_tail window) m.link;
    by_local_key = put m.by_local_key (i, id) (length m.heap);
    by_remote_key = put m.by_remote_key (requested q) (length m.heap);
    user_tasks = put m.user_tasks (i, id) (length m.heap);
  }

  started : start_session window (add_inbound q window i id allocated) ≡ accepted
  unfolding start_session add_inbound
  started = rw (get_elem?-last m.heap opened) (rw (set-last m.heap opened served))

  module _ (e : first_free max_local_circuits 0 m.used_local_idx ≡ some i) where
    opens : open_circuit q window m ≡ some (add_inbound q window i id allocated)
    unfolding open_circuit
    opens = rw e

    accepts :
        get m.by_remote_key (requested q) ≡ none
        → leb max_local_circuits (length m.used_local_idx) ≡ false
        → handle_connect_request q m ≡ some accepted
    unfolding handle_connect_request
    accepts new room = rw (new, handle_connect_request) (rw room (rw opens (rw started)))

    accepted-Accepted : Accepted q m accepted
    accepted-Accepted =
        let (free, _, range) = first_free-is_free max_local_circuits 0 m.used_local_idx e in
        unfold new_circuit in
        record {
          c = served;
          heap = refl;
          up = refl;
          index_free = free;
          index_range = omega (arith, range);
          id = refl;
          remote = refl;
          user = refl;
          window_low = omega arith;
          window_high = omega arith;
          local_table = refl;
          remote_table = refl;
          indices = refl;
          task = refl;
          timer = refl;
          window = refl;
          answer = unfold send_l3 in refl;
        }

-- A CONNECT REQUEST with a new remote key, in a table that is not full, raises nothing, opens a
-- connected circuit under a free index with its window brought between 1 and 7, enters it in all
-- tables, and starts its session; unless the link is closing, one CONNECT ACK that does not refuse
-- goes out, with the request's index and id and the circuit's own.
pub handle_connect_request_accepts :
    (q : ConnectRequest) (m : Manager)
    → get m.by_remote_key (requested q) ≡ none
    → length m.used_local_idx < max_local_circuits
    → (m' : Manager) × (handle_connect_request q m ≡ some m') × Accepted q m m'
handle_connect_request_accepts q m new room =
    let (i, e) = some_of_ne_none _ (first_free_total m.used_local_idx room) in
    (accepted q m i, accepts q m i e new (ground arith), accepted-Accepted q m i e)
