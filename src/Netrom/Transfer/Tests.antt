-- ===== src/Netrom/Transfer/Tests.antt =====
-- A run of the transfer: a text of three bytes over a link with fragments of two bytes.
use bbs.Prelude.{ℕ, ◌≡◌, ◌≤◌, refl, true, false, List, [], ◌∷◌, ◌++◌, arith}
use bbs.Text.{Text, codes}
use bbs.Ax25.NetromFrame.Frame.{Information}
use bbs.Netrom.Circuit.{
  NetromCircuit, connected, frames_in_flight, send_info_fragment, build_header, send_l3,
}
use bbs.Netrom.Circuit.Outbound.{write, fragments, drain_round, send_next}
use bbs.Netrom.Transfer.{
  System, can_run, writes, rounds, delivers, Reach, here, next, do_write, do_round, do_deliver,
}
use bbs.Netrom.Transfer.Delivery.{IsFresh, transfer_safe}
use bbs.Netrom.Transfer.Progress.{transfer_completes}

abbrev circuit : Text → Text → NetromCircuit
circuit mine theirs = record {
  local_idx = 0;
  local_id = 7;
  remote_idx = 1;
  remote_id = 9;
  local_call = mine;
  user_call = codes "K6FB";
  origin_node_call = theirs;
  via_node = theirs;
  state = connected;
  vs = 0;
  vr = 0;
  va = 0;
  accepted_window = 4;
  info_mtu = 2;
  reassembly = [];
  pending_outbound = [];
  window_event = true;
  connected_event = true;
  closed_event = false;
  reader_data = [];
  reader_eof = false;
  writer_closing = false;
  disc_guard = false;
}

abbrev start : System
start = record {
  sender = circuit (codes "W6ELA-1") (codes "KI6ZHD-5");
  receiver = circuit (codes "KI6ZHD-5") (codes "W6ELA-1");
  forward = [];
  backward = [];
  messages = [];
  waiting = false;
}

start-IsFresh : IsFresh start
start-IsFresh = record {
  up = refl;
  usable = refl;
  mtu = omega arith;
  window_low = omega arith;
  window_high = omega arith;
  va_byte = omega arith;
  vs_is = refl;
  vr_is = refl;
  queue = refl;
  buffer = refl;
  read = refl;
  forward = refl;
  backward = refl;
  messages = refl;
  running = refl;
}

abbrev sent_twice : System
sent_twice = do_round (do_round (do_write (72 ∷ 105 ∷ 33 ∷ []) start))

first_run : can_run (do_write (72 ∷ 105 ∷ 33 ∷ []) start) ≡ true
unfolding do_write write
first_run = refl

second_run : can_run (do_round (do_write (72 ∷ 105 ∷ 33 ∷ []) start)) ≡ true
unfolding do_write do_round write fragments drain_round send_next send_info_fragment build_header
    send_l3 frames_in_flight
second_run = refl

sent_twice-Reach : Reach start sent_twice
sent_twice-Reach =
    next (next (next here (writes 72 (105 ∷ 33 ∷ []) (omega arith))) (rounds first_run))
      (rounds second_run)

transfer_safe_example :
    (later : List (List ℕ)) × (sent_twice.receiver.reader_data ++ later ≡ sent_twice.messages)
    × (frames_in_flight sent_twice.sender ≤ sent_twice.sender.accepted_window)
transfer_safe_example = transfer_safe start sent_twice start-IsFresh sent_twice-Reach

transfer_completes_example :
    (u : System) × Reach sent_twice u × (u.receiver.reader_data ≡ sent_twice.messages)
transfer_completes_example = transfer_completes start sent_twice start-IsFresh sent_twice-Reach

abbrev info : ℕ → ℕ → List ℕ → Information
info tx flags bytes = record {
  header = record {
    origin_call = codes "W6ELA-1";
    dest_call = codes "KI6ZHD-5";
    ttl = 25;
    circuit_idx = 1;
    circuit_id = 9;
    tx_seq = tx;
    rx_seq = 0;
    opcode_flags = flags;
  };
  info = bytes;
}

abbrev delivered : System
delivered =
    do_deliver (info 1 5 (33 ∷ [])) []
      (do_deliver (info 0 37 (72 ∷ 105 ∷ [])) (info 1 5 (33 ∷ []) ∷ []) sent_twice)

under_way : sent_twice.forward ≡ info 0 37 (72 ∷ 105 ∷ []) ∷ info 1 5 (33 ∷ []) ∷ []
unfolding do_write do_round write fragments drain_round send_next send_info_fragment build_header
    send_l3 frames_in_flight
under_way = refl

one_left :
    (do_deliver (info 0 37 (72 ∷ 105 ∷ [])) (info 1 5 (33 ∷ []) ∷ []) sent_twice).forward
    ≡ info 1 5 (33 ∷ []) ∷ []
unfolding do_deliver
one_left = refl

delivered-Reach : Reach start delivered
delivered-Reach =
    next
      (next sent_twice-Reach
        (delivers (info 0 37 (72 ∷ 105 ∷ [])) (info 1 5 (33 ∷ []) ∷ []) under_way))
      (delivers (info 1 5 (33 ∷ [])) [] one_left)

all_delivered : delivered.forward ≡ []
unfolding do_deliver
all_delivered = refl

all_sent : delivered.sender.pending_outbound ≡ []
unfolding do_deliver do_write do_round write fragments drain_round send_next send_info_fragment
    build_header send_l3 frames_in_flight
all_sent = refl
