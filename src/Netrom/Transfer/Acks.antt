-- ===== src/Netrom/Transfer/Acks.antt =====
-- An INFO ACK at the sender of a sound system.
use bbs.Prelude.{ℕ, suc, ◌+◌, ◌%◌, ◌<◌, ◌≡◌, ◌≢◌, true, List, ◌∷◌, length, arith}
use bbs.Ax25.NetromFrame.Header.{L3Header}
use bbs.Netrom.Circuit.{NetromCircuit, advance_va}
use bbs.Netrom.Circuit.Inbound.{handle_information_ack}
use bbs.Netrom.Transfer.{System, do_ack}
use bbs.Netrom.Transfer.Spec.{AckNumbered, IsSound}

advance_va_fields :
    (c : NetromCircuit) (n : ℕ)
    → c.va < 256
    → ((advance_va c n).va ≡ n % 256)
      × ((advance_va c n).vs ≡ c.vs)
      × ((advance_va c n).state ≡ c.state)
      × ((advance_va c n).writer_closing ≡ c.writer_closing)
      × ((advance_va c n).info_mtu ≡ c.info_mtu)
      × ((advance_va c n).accepted_window ≡ c.accepted_window)
      × ((advance_va c n).pending_outbound ≡ c.pending_outbound)
unfolding advance_va
advance_va_fields c n h = ground arith

-- An acknowledgement of a frame sets the window event.
wakes : (c : NetromCircuit) (n : ℕ) → n % 256 ≢ c.va → (advance_va c n).window_event ≡ true
unfolding advance_va
wakes c n h = ground (arith, h)

pub do_ack-IsSound :
    (s : System) (h : L3Header) (rest : List L3Header)
    → s.backward ≡ h ∷ rest
    → IsSound s
    → IsSound (do_ack h rest s)
unfolding do_ack handle_information_ack
do_ack-IsSound s h rest e i =
    let c = s.sender in
    let (va, vs, st, wc, mtu, win, pend) = advance_va_fields c h.rx_seq i.va_byte in
    let acked : AckNumbered c.va (h ∷ rest) = rw e at i.acked in
    let va' : (advance_va c h.rx_seq).va ≡ (c.va + 1) % 256 = omega (arith, va, acked.0) in
    let l : length s.backward ≡ suc (length rest) = rw e in
    let moves : h.rx_seq % 256 ≢ c.va = λ p. omega (arith, acked.0, p, i.va_byte) in
    record {
      up = rw st i.up;
      usable = rw wc i.usable;
      mtu = rw mtu i.mtu;
      window_low = rw win i.window_low;
      window_high = rw win i.window_high;
      va_byte = omega (arith, va');
      vs_is = omega (arith, vs, va', l, i.vs_is);
      vr_is = omega (arith, va', l, i.vr_is);
      in_window = omega (arith, win, l, i.in_window);
      numbered = i.numbered;
      acked = rw va' acked.1;
      fits = rw pend i.fits;
      settled = rw pend i.settled;
      delivered = rw pend i.delivered;
      woken = λ w e. absurd (cc (e, wakes c h.rx_seq moves));
    }

pub pending-advance_va :
    (c : NetromCircuit) (n : ℕ) → (advance_va c n).pending_outbound ≡ c.pending_outbound
unfolding advance_va
pending-advance_va c n = ground arith
