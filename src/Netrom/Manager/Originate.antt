-- ===== src/Netrom/Manager/Originate.antt =====
-- `originate_circuit` of NetromCircuitManager, up to its wait and from its wait on.
use bbs.Prelude.{
  ℕ, Bool, true, false, [], ◌∷◌, ◌++◌, Option, some, if◌then◌else◌, get_elem?, length, ◌>>=◌,
  nat_eq, pair_eq,
}
use bbs.Text.{Text}
use bbs.Dict.{put}
use bbs.Netrom.Circuit.{awaiting_connect, send_connect_request, is_connected}
use bbs.Netrom.Manager.{Manager, Ref}
use bbs.Netrom.Manager.Idle.{cancel_idle_timer}
use bbs.Netrom.Manager.Tables.{allocate_local_idx, allocate_local_id, new_circuit, remove_circuit}
use bbs.Netrom.Manager.Dispatch.{at_ref, clamp_proposed}

-- Behind both allocations: the circuit goes to the heap and to the local table, not to the remote one.
unfoldable pub add_outbound : Text → Text → ℕ → ℕ → ℕ → Manager → Ref × Manager
unfolding new_circuit send_connect_request
add_outbound dest_node_call user_call proposed_window local_idx local_id m =
    let r = length m.heap in
    let window = clamp_proposed proposed_window in
    let c =
      new_circuit m local_idx local_id (0, 0) user_call dest_node_call awaiting_connect window in
    (
      r,
      record m {
        heap = m.heap ++ c ∷ [];
        by_local_key = put m.by_local_key (local_idx, local_id) r;
        link = send_connect_request c window m.link;
      },
    )

-- `none` is the RuntimeError of a full table.
unfoldable pub originate_start : Text → Text → ℕ → Manager → Option (Ref × Manager)
unfolding cancel_idle_timer allocate_local_idx allocate_local_id add_outbound
originate_start dest_node_call user_call proposed_window m = do
  allocated ← allocate_local_idx (cancel_idle_timer m)
  let (local_idx, m₁) = allocated
  let (local_id, m₂) = allocate_local_id m₁
  some (add_outbound dest_node_call user_call proposed_window local_idx local_id m₂)

-- The wait ran into its timeout: the circuit is removed, and TimeoutError raised.
unfoldable pub originate_timeout : Ref → Manager → Manager
unfolding remove_circuit
originate_timeout r m = at_ref (get_elem? m.heap r) m (λ c. remove_circuit c m)

-- The connected event was set. `false` is ConnectionRefusedError.
unfoldable pub originate_resume : Ref → Manager → Bool × Manager
unfolding remove_circuit
originate_resume r m =
    at_ref (get_elem? m.heap r) (false, m)
      (λ c. if is_connected c.state then (true, m) else (false, remove_circuit c m))
