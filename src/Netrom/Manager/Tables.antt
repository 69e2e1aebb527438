-- ===== src/Netrom/Manager/Tables.antt =====
-- The tables of NetromCircuitManager: allocation, opening and removal of circuits.
use bbs.Prelude.{
  ℕ, zero, suc, ◌+◌, ◌%◌, false, not, List, [], ◌∷◌, ◌++◌, Option, none, some, if◌then◌else◌,
  length, ◌>>=◌, nat_eq, pair_eq,
}
use bbs.Text.{Text}
use bbs.Dict.{Dict, get, has, put, remove, is_empty}
use bbs.Netrom.Circuit.{CircuitState, connecting, NetromCircuit}
use bbs.Ax25.NetromFrame.Frame.{ConnectRequest}
use bbs.Netrom.Manager.{Manager, Key, Ref, max_local_circuits, local_key, remote_key}
use bbs.Netrom.Manager.Idle.{arm_idle_timer, cancel_idle_timer}

-- The first of the `rounds` indices from `i` on that is free.
unfoldable pub first_free : ℕ → ℕ → Dict ℕ (Unit {0}) → Option ℕ
first_free zero i used = none
first_free (suc rounds) i used =
    let later = first_free rounds (i + 1) used in if not (has used i) then some i else later

-- `none` is the RuntimeError of a full table.
unfoldable pub allocate_local_idx : Manager → Option (ℕ × Manager)
unfolding first_free
allocate_local_idx m = do
  i ← first_free max_local_circuits 0 m.used_local_idx
  some (i, record m { used_local_idx = put m.used_local_idx i tt })

unfoldable pub allocate_local_id : Manager → ℕ × Manager
allocate_local_id m = let id = (m.next_local_id + 1) % 256 in (id, record m { next_local_id = id })

-- A circuit as its constructor makes it, with the fields that have no default.
unfoldable pub new_circuit : Manager → ℕ → ℕ → Key → Text → Text → CircuitState → ℕ → NetromCircuit
new_circuit m local_idx local_id remote user_call origin_node_call state window = record {
  local_idx = local_idx;
  local_id = local_id;
  remote_idx = remote.0;
  remote_id = remote.1;
  local_call = m.local_call;
  user_call = user_call;
  origin_node_call = origin_node_call;
  via_node = m.via_node;
  state = state;
  vs = 0;
  vr = 0;
  va = 0;
  accepted_window = window;
  info_mtu = m.info_mtu;
  reassembly = [];
  pending_outbound = [];
  window_event = false;
  connected_event = false;
  closed_event = false;
  reader_data = [];
  reader_eof = false;
  writer_closing = false;
  disc_guard = false;
}

-- Behind both allocations: the circuit goes to the heap and to the tables.
unfoldable pub add_inbound : ConnectRequest → ℕ → ℕ → ℕ → Manager → Ref × Manager
unfolding new_circuit
add_inbound req window local_idx local_id m =
    let r = length m.heap in
    let remote : Key = (req.header.circuit_idx, req.header.circuit_id) in
    let c =
      new_circuit m local_idx local_id remote req.user_call req.origin_node_call connecting
        window in
    (
      r,
      record m {
        heap = m.heap ++ c ∷ [];
        by_local_key = put m.by_local_key (local_idx, local_id) r;
        by_remote_key = put m.by_remote_key remote r;
      },
    )

unfoldable pub open_circuit : ConnectRequest → ℕ → Manager → Option (Ref × Manager)
unfolding cancel_idle_timer allocate_local_idx allocate_local_id add_inbound
open_circuit req window m = do
  allocated ← allocate_local_idx (cancel_idle_timer m)
  let (local_idx, m₁) = allocated
  let (local_id, m₂) = allocate_local_id m₁
  some (add_inbound req window local_idx local_id m₂)

-- The session task of the circuit, if it still runs, is cancelled.
unfoldable pub cancel_task : Option Ref → Key → List Key → List Key
cancel_task none key cancelled = cancelled
cancel_task (some r) key cancelled = cancelled ++ key ∷ []

unfoldable pub remove_circuit : NetromCircuit → Manager → Manager
unfolding arm_idle_timer cancel_task
remove_circuit c m =
    let m' = record m {
      by_local_key = remove m.by_local_key (local_key c);
      by_remote_key = remove m.by_remote_key (remote_key c);
      used_local_idx = remove m.used_local_idx c.local_idx;
      user_tasks = remove m.user_tasks (local_key c);
      cancelled = cancel_task (get m.user_tasks (local_key c)) (local_key c) m.cancelled;
    } in
    if is_empty m'.by_local_key then arm_idle_timer m' else m'
