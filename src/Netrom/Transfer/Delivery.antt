-- ===== src/Netrom/Transfer/Delivery.antt =====
-- Safety of the transfer.
use bbs.Prelude.{ℕ, ◌≤◌, ◌<◌, ◌≡◌, false, List, [], ◌++◌, arith, append-nil, ◌∙◌, sym}
use bbs.Netrom.Circuit.{connected, max_window, frames_in_flight}
use bbs.Netrom.Transfer.{System, Step, writes, rounds, delivers, acks, Reach, here, next}
use bbs.Netrom.Transfer.Spec.{flush, unseen, IsSound}
use bbs.Netrom.Transfer.Writer.{do_write-IsSound}
use bbs.Netrom.Transfer.Sender.{do_round-IsSound, in_flight}
use bbs.Netrom.Transfer.Acks.{do_ack-IsSound}
use bbs.Netrom.Transfer.Receiver.{do_deliver-IsSound}

-- A connected sender and a receiver that agree on the sequence number, with nothing under way.
pub record IsFresh (s : System) : Type 0 where
  pub up : s.sender.state ≡ connected
  pub usable : s.sender.writer_closing ≡ false
  pub mtu : 1 ≤ s.sender.info_mtu
  pub window_low : 1 ≤ s.sender.accepted_window
  pub window_high : s.sender.accepted_window ≤ max_window
  pub va_byte : s.sender.va < 256
  pub vs_is : s.sender.vs ≡ s.sender.va
  pub vr_is : s.receiver.vr ≡ s.sender.va
  pub queue : s.sender.pending_outbound ≡ []
  pub buffer : s.receiver.reassembly ≡ []
  pub read : s.receiver.reader_data ≡ []
  pub forward : s.forward ≡ []
  pub backward : s.backward ≡ []
  pub messages : s.messages ≡ []
  pub running : s.waiting ≡ false

pub IsFresh-IsSound : (s : System) → IsFresh s → IsSound s
IsFresh-IsSound s f = record {
  up = f.up;
  usable = f.usable;
  mtu = f.mtu;
  window_low = f.window_low;
  window_high = f.window_high;
  va_byte = f.va_byte;
  vs_is = rw (f.forward, f.backward) (omega (arith, f.vs_is, f.va_byte));
  vr_is = rw f.backward (omega (arith, f.vr_is, f.va_byte));
  in_window = rw (f.forward, f.backward) (omega arith);
  numbered = rw f.forward tt;
  acked = rw f.backward tt;
  fits = rw (f.forward, f.queue, f.buffer) (omega arith);
  settled = rw (f.forward, f.queue, f.buffer);
  delivered = rw (f.forward, f.queue, f.read, f.messages);
  woken = λ w e. absurd (cc (w, f.running));
}

pub Step-IsSound : {s t : System} → Step s t → IsSound s → IsSound t
Step-IsSound {s} (writes b bytes h) i = do_write-IsSound s b bytes h i
Step-IsSound {s} (rounds run) i = do_round-IsSound s i
Step-IsSound {s} (delivers f rest e) i = do_deliver-IsSound s f rest e i
Step-IsSound {s} (acks h rest e) i = do_ack-IsSound s h rest e i

pub Reach-IsSound : {s t : System} → IsSound s → Reach s t → IsSound t
Reach-IsSound i here = i
Reach-IsSound i (next r st) = Step-IsSound st (Reach-IsSound i r)

-- After any interleaving of writes of texts of 1 to 65536 bytes, rounds of `drain` by a task that is
-- not waiting or was woken, deliveries and acknowledgements, from a fresh system, what the reader got
-- is a beginning of the texts that were written, and the frames in flight do not exceed the accepted
-- window.
pub transfer_safe :
    (s t : System)
    → IsFresh s
    → Reach s t
    → (later : List (List ℕ)) × (t.receiver.reader_data ++ later ≡ t.messages)
      × (frames_in_flight t.sender ≤ t.sender.accepted_window)
transfer_safe s t f r =
    let i = Reach-IsSound (IsFresh-IsSound s f) r in
    (flush t.receiver.reassembly (unseen t), i.delivered, omega (arith, in_flight t i, i.in_window))

-- When the queue and the crosslink have run empty, the reader has got exactly what was written.
pub transfer_exact :
    (s t : System)
    → IsFresh s
    → Reach s t
    → t.forward ≡ []
    → t.sender.pending_outbound ≡ []
    → t.receiver.reader_data ≡ t.messages
transfer_exact s t f r e p =
    let i = Reach-IsSound (IsFresh-IsSound s f) r in
    let same : unseen t ≡ [] = rw (e, p) in
    sym (append-nil t.receiver.reader_data) ∙ (rw same at i.delivered)
