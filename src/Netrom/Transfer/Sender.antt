-- ===== src/Netrom/Transfer/Sender.antt =====
-- A round of `drain` at the sender of a sound system.
use bbs.Prelude.{
  ◌+◌, ◌%◌, ◌<◌, ◌≡◌, refl, ap, Bool, true, false, [], ◌∷◌, ◌++◌, length, leb, arith, append-nil,
  append_assoc, length-append, Bool-cases, inl, inr, ◌∙◌, if◌then◌else◌,
}
use bbs.Ax25.NetromFrame.Wire.{Bytes}
use bbs.Ax25.NetromFrame.Header.{opcode_information, flag_more_follows}
use bbs.Ax25.NetromFrame.Frame.{Information}
use bbs.Netrom.Circuit.{connected, NetromCircuit, frames_in_flight, build_header}
use bbs.Netrom.Circuit.Outbound.{send_next, drain_round}
use bbs.Netrom.Transfer.{System, open_link, infos, do_round, is_blocked}
use bbs.Netrom.Transfer.Spec.{Fragments, frags_of, unseen, IsSound, frags_of-append, Numbered-snoc}

-- The INFO frame of a fragment.
pub info_of : NetromCircuit → Bytes → Bool → Information
info_of c chunk more = record {
  header = build_header c (opcode_information + (if more then flag_more_follows else 0));
  info = chunk;
}

frags_of-info_of :
    (c : NetromCircuit) (chunk : Bytes) (more : Bool)
    → frags_of (info_of c chunk more ∷ []) ≡ (chunk, more) ∷ []
unfolding info_of build_header
frags_of-info_of c chunk true = refl
frags_of-info_of c chunk false = refl

send_next_sent :
    (c : NetromCircuit) (chunk : Bytes) (more : Bool) (rest : Fragments)
    → c.state ≡ connected
    → leb c.accepted_window (frames_in_flight c) ≡ false
    → (send_next c ((chunk, more) ∷ rest) open_link).1
      ≡ record c { pending_outbound = rest; vs = (c.vs + 1) % 256 }
unfolding send_next
send_next_sent c chunk more rest u w = ground arith

ended_sent :
    (c : NetromCircuit) (chunk : Bytes) (more : Bool) (rest : Fragments)
    → c.state ≡ connected
    → leb c.accepted_window (frames_in_flight c) ≡ false
    → is_blocked (send_next c ((chunk, more) ∷ rest) open_link).0 ≡ false
unfolding send_next
ended_sent c chunk more rest u w = ground arith

infos_sent :
    (c : NetromCircuit) (chunk : Bytes) (more : Bool) (rest : Fragments)
    → c.state ≡ connected
    → leb c.accepted_window (frames_in_flight c) ≡ false
    → infos (send_next c ((chunk, more) ∷ rest) open_link).2.written ≡ info_of c chunk more ∷ []
unfolding send_next info_of
infos_sent c chunk more rest u w = ground arith

pub in_flight :
    (s : System) → IsSound s → frames_in_flight s.sender ≡ length s.backward + length s.forward
unfolding frames_in_flight
in_flight s i = omega (arith, i.vs_is, i.in_window, i.window_high, i.va_byte)

send_next_full :
    (c : NetromCircuit) (chunk : Bytes) (more : Bool) (rest : Fragments)
    → c.state ≡ connected
    → leb c.accepted_window (frames_in_flight c) ≡ true
    → ((send_next c ((chunk, more) ∷ rest) open_link).1 ≡ record c { window_event = false })
      × (infos (send_next c ((chunk, more) ∷ rest) open_link).2.written ≡ [])
unfolding send_next
send_next_full c chunk more rest u w = (ground arith, ground arith)

-- A round that finds the window open moves one fragment from the queue to the crosslink.
unfoldable pub moved : System → Bytes → Bool → Fragments → System
moved s chunk more rest = record s {
  sender = record (s.sender) { pending_outbound = rest; vs = (s.sender.vs + 1) % 256 };
  forward = s.forward ++ info_of s.sender chunk more ∷ [];
  waiting = false;
}

unseen-moved :
    (s : System) (chunk : Bytes) (more : Bool) (rest : Fragments)
    → s.sender.pending_outbound ≡ (chunk, more) ∷ rest
    → unseen (moved s chunk more rest) ≡ unseen s
unfolding moved
unseen-moved s chunk more rest e = rw (frags_of-append, frags_of-info_of, append_assoc) (rw e)

moved-IsSound :
    (s : System) (chunk : Bytes) (more : Bool) (rest : Fragments)
    → s.sender.pending_outbound ≡ (chunk, more) ∷ rest
    → leb s.sender.accepted_window (frames_in_flight s.sender) ≡ false
    → IsSound s
    → IsSound (moved s chunk more rest)
moved-IsSound s chunk more rest e w i =
    let same = unseen-moved s chunk more rest e in
    let room : length s.backward + length s.forward < s.sender.accepted_window =
      ground (arith, in_flight s i) in
    unfold moved in
    record {
      up = i.up;
      usable = i.usable;
      mtu = i.mtu;
      window_low = i.window_low;
      window_high = i.window_high;
      va_byte = i.va_byte;
      vs_is = omega (arith, i.vs_is, length-append s.forward (info_of s.sender chunk more ∷ []));
      vr_is = i.vr_is;
      in_window = omega (arith, room, length-append s.forward (info_of s.sender chunk more ∷ []));
      numbered =
          Numbered-snoc s.receiver.vr s.forward (info_of s.sender chunk more)
            (omega (arith, i.vr_is)) i.numbered
            (unfold info_of build_header in omega (arith, i.vs_is, i.vr_is));
      acked = i.acked;
      fits = rw same i.fits;
      settled = rw same i.settled;
      delivered = rw same i.delivered;
      woken = λ w e. absurd (cc w);
    }

-- A task that does not wait needs no event.
stopped : (s : System) → IsSound s → IsSound (record s { waiting = false })
stopped s i = record {
  up = i.up;
  usable = i.usable;
  mtu = i.mtu;
  window_low = i.window_low;
  window_high = i.window_high;
  va_byte = i.va_byte;
  vs_is = i.vs_is;
  vr_is = i.vr_is;
  in_window = i.in_window;
  numbered = i.numbered;
  acked = i.acked;
  fits = i.fits;
  settled = i.settled;
  delivered = i.delivered;
  woken = λ w e. absurd (cc w);
}

send_next-IsSound :
    (s : System) (pending : Fragments)
    → s.sender.pending_outbound ≡ pending
    → IsSound s
    → let (ended, sender', link) = send_next s.sender pending open_link in
      IsSound (record s {
        sender = sender';
        forward = s.forward ++ infos link.written;
        waiting = is_blocked ended;
      })
send_next-IsSound s [] e i = unfold send_next in rw append-nil (stopped s i)
send_next-IsSound s ((chunk, more) ∷ rest) e i =
    elim (Bool-cases (leb s.sender.accepted_window (frames_in_flight s.sender))) [
      | inl full ↦
          let (same, none_sent) = send_next_full s.sender chunk more rest i.up full in
          rw (same, none_sent, append-nil)
            (record {
              up = i.up;
              usable = i.usable;
              mtu = i.mtu;
              window_low = i.window_low;
              window_high = i.window_high;
              va_byte = i.va_byte;
              vs_is = i.vs_is;
              vr_is = i.vr_is;
              in_window = i.in_window;
              numbered = i.numbered;
              acked = i.acked;
              fits = i.fits;
              settled = i.settled;
              delivered = i.delivered;
              woken = λ w e. unfold frames_in_flight in ground (arith, full);
            })
      | inr room ↦
          rw
            (
              send_next_sent s.sender chunk more rest i.up room,
              infos_sent s.sender chunk more rest i.up room,
              ended_sent s.sender chunk more rest i.up room,
            )
            (unfold moved in moved-IsSound s chunk more rest e room i)
    ]

pub do_round-IsSound : (s : System) → IsSound s → IsSound (do_round s)
unfolding do_round drain_round
do_round-IsSound s i = send_next-IsSound s s.sender.pending_outbound refl i

-- With the window open, a round is that move.
pub do_round-eq-moved :
    (s : System) (chunk : Bytes) (more : Bool) (rest : Fragments)
    → s.sender.state ≡ connected
    → s.sender.pending_outbound ≡ (chunk, more) ∷ rest
    → leb s.sender.accepted_window (frames_in_flight s.sender) ≡ false
    → do_round s ≡ moved s chunk more rest
unfolding do_round drain_round moved
do_round-eq-moved s chunk more rest u e w =
    ap
      (λ (q : Fragments). record s {
        sender = (send_next s.sender q open_link).1;
        forward = s.forward ++ infos (send_next s.sender q open_link).2.written;
        waiting = is_blocked (send_next s.sender q open_link).0;
      })
      e
    ∙ rw (
      send_next_sent s.sender chunk more rest u w,
      infos_sent s.sender chunk more rest u w,
      ended_sent s.sender chunk more rest u w,
    )
