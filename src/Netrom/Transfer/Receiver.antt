-- ===== src/Netrom/Transfer/Receiver.antt =====
-- What an INFO frame does at the receiver of a sound system.
use bbs.Prelude.{
  ℕ, suc, ◌+◌, ◌%◌, ◌<◌, ◌≡◌, refl, sym, ap, Bool, true, false, List, [], ◌∷◌, ◌++◌, length, arith,
  append-nil, append_assoc, length-append, ◌∙◌,
}
use bbs.Ax25.NetromFrame.Wire.{Bytes}
use bbs.Ax25.NetromFrame.Header.{more_follows, opcode_information_ack}
use bbs.Ax25.NetromFrame.Frame.{Information}
use bbs.Netrom.Circuit.{NetromCircuit, Link, build_header, advance_va, send_info_ack}
use bbs.Netrom.Circuit.Inbound.{handle_information, reassemble, feed_data}
use bbs.Netrom.Transfer.{System, open_link, headers, do_deliver}
use bbs.Netrom.Transfer.Spec.{
  Fragments, cons_text, cons_text-append, flush, residue, Fits, frags_of, Numbered, IsSound,
  AckNumbered-snoc,
}

-- What the handler of a frame in sequence leaves behind, in the fields that matter here.
record Handled (c c' : NetromCircuit) (i : Information) : Type 0 where
  next : c'.vr ≡ (c.vr + 1) % 256
  text : c'.reassembly ≡ (reassemble c i).reassembly
  fed : c'.reader_data ≡ (reassemble c i).reader_data

advance_va_keeps :
    (c : NetromCircuit) (n : ℕ)
    → ((advance_va c n).vr ≡ c.vr)
      × ((advance_va c n).reassembly ≡ c.reassembly)
      × ((advance_va c n).reader_data ≡ c.reader_data)
unfolding advance_va
advance_va_keeps c n = ground arith

reassemble_vr : (c : NetromCircuit) (i : Information) → (reassemble c i).vr ≡ c.vr
unfolding reassemble
reassemble_vr c i = ground arith

-- The circuit behind a frame in sequence.
pub fresh : NetromCircuit → Information → NetromCircuit
fresh c i =
    let r = reassemble c i in advance_va (record r { vr = (r.vr + 1) % 256 }) i.header.rx_seq

handle_in_sequence :
    (c : NetromCircuit) (i : Information) (link : Link)
    → i.header.tx_seq ≡ c.vr
    → c.vr < 256
    → handle_information c i link ≡ (fresh c i, send_info_ack (fresh c i) link)
unfolding handle_information fresh
handle_in_sequence c i link e b = ground arith

fresh-Handled : (c : NetromCircuit) (i : Information) → Handled c (fresh c i) i
unfolding fresh
fresh-Handled c i =
    let r = reassemble c i in
    let (v, t, d) = advance_va_keeps (record r { vr = (r.vr + 1) % 256 }) i.header.rx_seq in
    record { next = v ∙ rw (reassemble_vr c i); text = t; fed = d }

-- The acknowledgement carries the receiver's V(R).
info_ack :
    (c : NetromCircuit)
    → headers (send_info_ack c open_link).written ≡ build_header c opcode_information_ack ∷ []
unfolding send_info_ack
info_ack c = refl

-- A fragment that fits: the reader and the buffer behind it hold what `flush` and `residue` say.
reassemble_more :
    (c : NetromCircuit) (i : Information) (rest : Fragments)
    → more_follows i.header ≡ true
    → Fits c.reassembly ((i.info, true) ∷ rest)
    → ((reassemble c i).reassembly ≡ c.reassembly ++ i.info)
      × ((reassemble c i).reader_data ≡ c.reader_data)
unfolding reassemble
reassemble_more c i rest m f = ground (arith, f.0, length-append c.reassembly i.info)

feed_data_lem : (bytes : Bytes) (fed : List Bytes) → feed_data bytes fed ≡ fed ++ cons_text bytes []
feed_data_lem [] fed = rw append-nil
feed_data_lem (b ∷ bytes) fed = refl

reassemble_last :
    (c : NetromCircuit) (i : Information) (rest : Fragments)
    → more_follows i.header ≡ false
    → Fits c.reassembly ((i.info, false) ∷ rest)
    → ((reassemble c i).reassembly ≡ [])
      × ((reassemble c i).reader_data ≡ feed_data (c.reassembly ++ i.info) c.reader_data)
unfolding reassemble
reassemble_last c i rest m f = ground (arith, f.0, length-append c.reassembly i.info)

-- A frame takes the first fragment off those that the receiver has not seen, and no text is lost.
record Advanced (c c' : NetromCircuit) (first : Bytes × Bool) (rest : Fragments) : Type 0 where
  fits : Fits c'.reassembly rest
  settled : residue c'.reassembly rest ≡ residue c.reassembly (first ∷ rest)
  delivered :
      c'.reader_data ++ flush c'.reassembly rest
      ≡ c.reader_data ++ flush c.reassembly (first ∷ rest)

fresh-Advanced :
    (c : NetromCircuit) (i : Information) (more : Bool) (rest : Fragments)
    → more_follows i.header ≡ more
    → Fits c.reassembly ((i.info, more) ∷ rest)
    → Advanced c (fresh c i) (i.info, more) rest
fresh-Advanced c i true rest m f =
    let h = fresh-Handled c i in
    let (t, d) = reassemble_more c i rest m f in
    let text = h.text ∙ t in
    let fed = h.fed ∙ d in
    record { fits = rw text f.1; settled = rw text; delivered = rw (text, fed) }
fresh-Advanced c i false rest m f =
    let h = fresh-Handled c i in
    let (t, d) = reassemble_last c i rest m f in
    let text = h.text ∙ t in
    let fed = h.fed ∙ d ∙ feed_data_lem (c.reassembly ++ i.info) c.reader_data in
    record {
      fits = rw text f.1;
      settled = rw text;
      delivered =
          rw (text, fed)
            (append_assoc c.reader_data (cons_text (c.reassembly ++ i.info) []) (flush [] rest)
              ∙ ap (◌++◌ c.reader_data)
                  (sym (cons_text-append (c.reassembly ++ i.info) [] (flush [] rest))));
    }

pub do_deliver-IsSound :
    (s : System) (i : Information) (rest : List Information)
    → s.forward ≡ i ∷ rest
    → IsSound s
    → IsSound (do_deliver i rest s)
do_deliver-IsSound s i rest e sound =
    let c = s.receiver in
    let numbered : Numbered c.vr (i ∷ rest) = rw e at sound.numbered in
    let byte : c.vr < 256 = omega (arith, sound.vr_is) in
    let pending = s.sender.pending_outbound in
    let fits : Fits c.reassembly (frags_of (i ∷ rest) ++ pending) = rw e at sound.fits in
    let settled : residue c.reassembly (frags_of (i ∷ rest) ++ pending) ≡ [] =
      rw e at sound.settled in
    let delivered : c.reader_data ++ flush c.reassembly (frags_of (i ∷ rest) ++ pending)
        ≡ s.messages =
      rw e at sound.delivered in
    let a = fresh-Advanced c i (more_follows i.header) (frags_of rest ++ pending) refl fits in
    let h = fresh-Handled c i in
    let l : length s.forward ≡ suc (length rest) = rw e in
    let lb = length-append s.backward (build_header (fresh c i) opcode_information_ack ∷ []) in
    unfold do_deliver in
    rw (handle_in_sequence c i open_link numbered.0 byte) (
      rw (info_ack (fresh c i)) (record {
        up = sound.up;
        usable = sound.usable;
        mtu = sound.mtu;
        window_low = sound.window_low;
        window_high = sound.window_high;
        va_byte = sound.va_byte;
        vs_is = omega (arith, sound.vs_is, l, lb);
        vr_is = omega (arith, h.next, sound.vr_is, lb);
        in_window = omega (arith, sound.in_window, l, lb);
        numbered = rw (h.next) numbered.1;
        acked =
            AckNumbered-snoc s.sender.va s.backward
              (build_header (fresh c i) opcode_information_ack) sound.va_byte sound.acked
              (unfold build_header in omega (arith, h.next, sound.vr_is));
        fits = a.fits;
        settled = a.settled ∙ settled;
        delivered = a.delivered ∙ delivered;
        woken = sound.woken;
      }))

-- The receiver answers a frame in sequence with one acknowledgement.
pub backward-do_deliver :
    (s : System) (i : Information) (rest : List Information)
    → s.forward ≡ i ∷ rest
    → IsSound s
    → (do_deliver i rest s).backward
      ≡ s.backward ++ build_header (fresh s.receiver i) opcode_information_ack ∷ []
backward-do_deliver s i rest e sound =
    let numbered : Numbered s.receiver.vr (i ∷ rest) = rw e at sound.numbered in
    unfold do_deliver in
    rw (handle_in_sequence s.receiver i open_link numbered.0 (omega (arith, sound.vr_is)))
      (rw (info_ack (fresh s.receiver i)))
