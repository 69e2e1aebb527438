-- ===== src/Netrom/Transfer.antt =====
-- Two circuits of bbs/netrom/circuit.py at the ends of a crosslink, one writing and the other
-- reading. AX.25 connected mode delivers the frames of each direction whole and in order, so each
-- direction is a queue; the four actions interleave in any order.
pub mod Spec
pub mod Sender
pub mod Acks
pub mod Writer
pub mod Receiver
pub mod Delivery
pub mod Progress
mod Tests
use bbs.Prelude.{◌≡◌, ℕ, ◌≤◌, Bool, true, false, not, ◌||◌, List, [], ◌∷◌, ◌++◌, length}
use bbs.Ax25.NetromFrame.Wire.{Bytes}
use bbs.Ax25.NetromFrame.Header.{L3Header}
use bbs.Ax25.NetromFrame.Frame.{Information}
use bbs.Netrom.Circuit.{NetromCircuit, Link, Sent, Payload, info_bytes, max_reassembly_bytes}
use bbs.Netrom.Circuit.Outbound.{Drain, finished, blocked, sent, write, drain_round}
use bbs.Netrom.Circuit.Inbound.{handle_information, handle_information_ack}

-- `forward` holds the INFO frames under way, `backward` the headers of the INFO ACKs under way, and
-- `messages` what was passed to `write` so far. `waiting` says that the task in `drain` waits for the
-- window event.
pub record System : Type 0 where
  pub sender : NetromCircuit
  pub receiver : NetromCircuit
  pub forward : List Information
  pub backward : List L3Header
  pub messages : List Bytes
  pub waiting : Bool

abbrev pub open_link : Link
open_link = record { written = []; closing = false }

abbrev pub to_infos : Payload → L3Header → List Information → List Information
to_infos (info_bytes bytes) header rest = record { header = header; info = bytes } ∷ rest
to_infos _ header rest = rest

-- The INFO frames among the frames that were written.
abbrev pub infos : List Sent → List Information
infos [] = []
infos (s ∷ written) = to_infos s.payload s.header (infos written)

abbrev pub headers : List Sent → List L3Header
headers [] = []
headers (s ∷ written) = s.header ∷ headers written

-- The BBS writes a text.
unfoldable pub do_write : Bytes → System → System
do_write bytes s = record s { sender = write s.sender bytes; messages = s.messages ++ bytes ∷ [] }

abbrev pub is_blocked : Drain → Bool
is_blocked blocked = true
is_blocked _ = false

-- A task that waits runs again when the event is set.
abbrev pub can_run : System → Bool
can_run s = not s.waiting || s.sender.window_event

-- The sender's `drain` makes a round.
unfoldable pub do_round : System → System
do_round s =
    let (ended, sender', link) = drain_round s.sender open_link in
    record s {
      sender = sender';
      forward = s.forward ++ infos link.written;
      waiting = is_blocked ended;
    }

-- The crosslink hands the next INFO frame to the receiver, which answers.
unfoldable pub do_deliver : Information → List Information → System → System
do_deliver i rest s =
    let (receiver', link) = handle_information s.receiver i open_link in
    record s { receiver = receiver'; forward = rest; backward = s.backward ++ headers link.written }

-- The crosslink hands the next INFO ACK to the sender.
unfoldable pub do_ack : L3Header → List L3Header → System → System
do_ack h rest s = record s { sender = handle_information_ack s.sender h; backward = rest }

pub data Step : System → System → Type 0 where
  writes :
      {s : System} (b : ℕ) (bytes : Bytes)
      → length (b ∷ bytes) ≤ max_reassembly_bytes
      → Step s (do_write (b ∷ bytes) s)
  rounds : {s : System} → can_run s ≡ true → Step s (do_round s)
  delivers :
      {s : System} (i : Information) (rest : List Information)
      → s.forward ≡ i ∷ rest
      → Step s (do_deliver i rest s)
  acks :
      {s : System} (h : L3Header) (rest : List L3Header)
      → s.backward ≡ h ∷ rest
      → Step s (do_ack h rest s)

pub data Reach (s : System) : System → Type 0 where
  here : Reach s s
  next : {t u : System} → Reach s t → Step t u → Reach s u
