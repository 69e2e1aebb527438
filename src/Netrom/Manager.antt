-- ===== src/Netrom/Manager.antt =====
-- bbs/netrom/circuit.py, the NetromCircuitManager of one crosslink. Circuits are shared between the
-- two tables, the session tasks and the callers of `originate_circuit`, so they live in a heap, and
-- the tables hold references: places in the heap, which only grows.
pub mod Tables
pub mod Idle
pub mod Dispatch
pub mod Originate
pub mod FreeIndex
pub mod Allocation
pub mod Removal
pub mod Indexed
mod Tests
use bbs.Prelude.{
  ℕ, zero, suc, ◌+◌, ◌%◌, Bool, true, false, List, [], ◌∷◌, ◌++◌, Option, none, some, get_elem?,
  set, length,
}
use bbs.Text.{Text}
use bbs.Dict.{Dict}
use bbs.Netrom.Circuit.{NetromCircuit, Link}

-- (circuit index, circuit id)
abbrev pub Key : Type 0
Key = ℕ × ℕ

abbrev pub Ref : Type 0
Ref = ℕ

abbrev pub max_local_circuits : ℕ
max_local_circuits = 256

-- `link_idle_timeout` is in any unit; 0 disables the reaper. `idle_handle` says whether the timer is
-- armed. A session task is the circuit that it serves, and `cancelled` lists the tasks cancelled.
pub record Manager : Type 0 where
  pub local_call : Text
  pub via_node : Text
  pub default_ttl : ℕ
  pub info_mtu : ℕ
  pub link_idle_timeout : ℕ
  pub idle_handle : Bool
  pub closed : Bool
  pub link : Link
  pub heap : List NetromCircuit
  pub by_local_key : Dict Key Ref
  pub by_remote_key : Dict Key Ref
  pub used_local_idx : Dict ℕ (Unit {0})
  pub next_local_id : ℕ
  pub user_tasks : Dict Key Ref
  pub cancelled : List Key

abbrev pub local_key : NetromCircuit → Key
local_key c = (c.local_idx, c.local_id)

abbrev pub remote_key : NetromCircuit → Key
remote_key c = (c.remote_idx, c.remote_id)

-- An operation of the circuit behind a reference.
unfoldable pub update : Ref → NetromCircuit × Link → Manager → Manager
update r (c, link) m = record m { heap = set m.heap r c; link = link }
