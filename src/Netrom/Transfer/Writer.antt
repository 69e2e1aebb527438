-- ===== src/Netrom/Transfer/Writer.antt =====
-- The step of the transfer that writes a text.
use bbs.Prelude.{ℕ, ◌≤◌, ◌≡◌, false, [], ◌∷◌, ◌++◌, length, arith, append_assoc, ◌∙◌}
use bbs.Ax25.NetromFrame.Wire.{Bytes}
use bbs.Netrom.Circuit.{frames_in_flight, connected, NetromCircuit, max_reassembly_bytes}
use bbs.Netrom.Circuit.Outbound.{fragments, write}
use bbs.Netrom.Transfer.{System, do_write}
use bbs.Netrom.Transfer.Spec.{
  flush-append, residue-append, Fits-append, fragments-Makes, frags_of, unseen, IsSound,
}

write_queues :
    (c : NetromCircuit) (bytes : Bytes)
    → c.state ≡ connected
    → c.writer_closing ≡ false
    → write c bytes ≡ record c {
      pending_outbound = c.pending_outbound ++ fragments (length bytes) c.info_mtu bytes;
    }
unfolding write
write_queues c bytes u o = ground arith

pub do_write-IsSound :
    (s : System) (b : ℕ) (bytes : Bytes)
    → length (b ∷ bytes) ≤ max_reassembly_bytes
    → IsSound s
    → IsSound (do_write (b ∷ bytes) s)
unfolding do_write
do_write-IsSound s b bytes h i =
    let text = b ∷ bytes in
    let fs = fragments (length text) s.sender.info_mtu text in
    let m =
      fragments-Makes (length text) s.sender.info_mtu [] text i.mtu (omega arith) (omega arith) in
    let acc = s.receiver.reassembly in
    let old = unseen s in
    let assoc : frags_of s.forward ++ (s.sender.pending_outbound ++ fs) ≡ old ++ fs =
      rw append_assoc in
    rw (write_queues s.sender text i.up i.usable) (record {
      up = i.up;
      usable = i.usable;
      mtu = i.mtu;
      window_low = i.window_low;
      window_high = i.window_high;
      va_byte = i.va_byte;
      vs_is = i.vs_is;
      vr_is = i.vr_is;
      in_window = i.in_window;
      numbered = i.numbered;
      acked = i.acked;
      fits = rw assoc (Fits-append acc old fs i.fits (rw i.settled (m.fits h)));
      settled = rw assoc (residue-append acc old fs ∙ rw i.settled m.settled);
      delivered =
          rw (assoc, flush-append acc old fs, i.settled, m.flushed, ← append_assoc)
            (rw i.delivered);
      woken = λ w e. unfold frames_in_flight in i.woken w e;
    })
