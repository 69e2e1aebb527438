-- ===== src/Netrom/Circuit/Outbound.antt =====
-- `_NetromCircuitWriter` of bbs/netrom/circuit.py: `write` queues fragments, and `drain` sends them
-- through the window guard.
use bbs.Prelude.{
  ℕ, zero, suc, Bool, false, not, List, [], ◌∷◌, ◌++◌, if◌then◌else◌, ltb, leb, length, take, drop,
}
use bbs.Ax25.NetromFrame.Wire.{Bytes}
use bbs.Netrom.Circuit.{NetromCircuit, Link, is_connected, frames_in_flight, send_info_fragment}

-- The loop of `write`, on the bytes from `offset` on; the fuel counts rounds. A fragment is marked
-- when more bytes follow it.
unfoldable pub fragments : ℕ → ℕ → Bytes → List (Bytes × Bool)
fragments zero mtu bytes = []
fragments (suc fuel) mtu [] = []
fragments (suc fuel) mtu (b ∷ bytes) =
    (take mtu (b ∷ bytes), ltb mtu (length (b ∷ bytes))) ∷ fragments fuel mtu (drop mtu (b ∷ bytes))

-- Nothing is queued for an empty text, a closing writer, or a circuit that is not connected. With an
-- MTU of at least 1 the rounds are at most as many as the bytes.
unfoldable pub write : NetromCircuit → Bytes → NetromCircuit
unfolding fragments
write c bytes = if c.writer_closing then c else if not (is_connected c.state) then c else record c {
  pending_outbound = c.pending_outbound ++ fragments (length bytes) c.info_mtu bytes;
}

-- How a round of the loop of `drain` ends: the loop returns, it waits for the window, or it has sent
-- a fragment and goes on.
pub data Drain : Type 0 where
  finished blocked sent : Drain

unfoldable pub send_next : NetromCircuit → List (Bytes × Bool) → Link → Drain × NetromCircuit × Link
unfolding send_info_fragment frames_in_flight
send_next c [] link = (finished, c, link)
send_next c ((chunk, more) ∷ pending) link =
    let (c', link') =
      send_info_fragment (record c { pending_outbound = pending }) chunk more link in
    if not (is_connected c.state)
    then (finished, record c { pending_outbound = [] }, link)
    else if leb c.accepted_window (frames_in_flight c)
    then (blocked, record c { window_event = false }, link)
    else (sent, c', link')

-- One round. A loop that waits goes on with a round when it is woken.
unfoldable pub drain_round : NetromCircuit → Link → Drain × NetromCircuit × Link
unfolding send_next
drain_round c link = send_next c c.pending_outbound link

-- The rounds of `drain` while nothing else runs; one for each queued fragment, and one to return.
unfoldable pub drain_rounds : ℕ → NetromCircuit → Link → Drain × NetromCircuit × Link
unfolding drain_round
drain_rounds zero c link = (sent, c, link)
drain_rounds (suc fuel) c link =
    let (ended, c', link') = drain_round c link in
    elim ended [
      | sent ↦ drain_rounds fuel c' link'
      | finished ↦ (finished, c', link')
      | blocked ↦ (blocked, c', link')
    ]

unfoldable pub drain : NetromCircuit → Link → Drain × NetromCircuit × Link
unfolding drain_rounds
drain c link = drain_rounds (suc (length c.pending_outbound)) c link
