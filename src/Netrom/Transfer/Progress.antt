-- ===== src/Netrom/Transfer/Progress.antt =====
-- Liveness of the transfer.
use bbs.Prelude.{
  ℕ, zero, suc, ◌+◌, ◌*◌, ◌≤◌, ◌≡◌, refl, Bool, true, false, List, [], ◌∷◌, length, arith, ◌∙◌, ap,
  leb, length-append, inl, inr, ◌⊎◌,
}
use bbs.Ax25.NetromFrame.Frame.{Information}
use bbs.Ax25.NetromFrame.Header.{L3Header, opcode_information_ack}
use bbs.Netrom.Circuit.{frames_in_flight, build_header}
use bbs.Netrom.Transfer.{
  System, Step, can_run, rounds, delivers, acks, Reach, here, next, do_round, do_deliver, do_ack,
}
use bbs.Netrom.Transfer.Spec.{Fragments, IsSound}
use bbs.Netrom.Transfer.Sender.{in_flight, moved, info_of, do_round-eq-moved}
use bbs.Netrom.Transfer.Acks.{pending-advance_va}
use bbs.Netrom.Transfer.Receiver.{fresh, backward-do_deliver}
use bbs.Netrom.Circuit.Inbound.{handle_information_ack}
use bbs.Netrom.Transfer.Delivery.{
  IsFresh, IsFresh-IsSound, Step-IsSound, Reach-IsSound, transfer_exact,
}

pub Reach-trans : {s t u : System} → Reach s t → Reach t u → Reach s u
Reach-trans r here = r
Reach-trans r (next q st) = next (Reach-trans r q) st

-- How many steps are left at most: three for a queued fragment, two for a frame under way, and one
-- for an acknowledgement under way.
work : System → ℕ
work s = length s.sender.pending_outbound * 3 + length s.forward * 2 + length s.backward

-- A step that leaves less work and the same texts.
record Advance (s : System) : Type 0 where
  after : System
  step : Step s after
  less : suc (work after) ≤ work s
  kept : after.messages ≡ s.messages

List-cases {ℓ} :
    {A : Type ℓ} (xs : List A) → (xs ≡ []) ⊎ ((x : A) × (rest : List A) × (xs ≡ x ∷ rest))
List-cases [] = inl refl
List-cases (x ∷ xs) = inr (x, xs, refl)

work-do_ack :
    (s : System) (h : L3Header) (rest : List L3Header)
    → s.backward ≡ h ∷ rest
    → suc (work (do_ack h rest s)) ≤ work s
unfolding work do_ack handle_information_ack
work-do_ack s h rest e = rw (e, pending-advance_va) (omega arith)

work-do_deliver :
    (s : System) (i : Information) (rest : List Information)
    → s.forward ≡ i ∷ rest
    → IsSound s
    → suc (work (do_deliver i rest s)) ≤ work s
work-do_deliver s i rest e v =
    let b = ap (length {A = L3Header}) (backward-do_deliver s i rest e v) in
    let l =
      length-append s.backward (build_header (fresh s.receiver i) opcode_information_ack ∷ []) in
    let f : length s.forward ≡ suc (length rest) = rw e in
    unfold work in
    let q : (do_deliver i rest s).sender.pending_outbound ≡ s.sender.pending_outbound =
      unfold do_deliver in refl in
    let g : (do_deliver i rest s).forward ≡ rest = unfold do_deliver in refl in
    rw (q, g) (omega (arith, b, l, f))

-- With nothing under way the window is open.
window_open :
    (s : System)
    → s.forward ≡ []
    → s.backward ≡ []
    → IsSound s
    → leb s.sender.accepted_window (frames_in_flight s.sender) ≡ false
window_open s e b v =
    let none_out : frames_in_flight s.sender ≡ 0 = in_flight s v ∙ rw (e, b) in
    ground (arith, none_out, v.window_low)

-- With nothing under way, a task in `drain` is not waiting, or its event is set.
runs_again : (s : System) → s.forward ≡ [] → s.backward ≡ [] → IsSound s → can_run s ≡ true
runs_again s e b v =
    let none_out : frames_in_flight s.sender ≡ 0 = in_flight s v ∙ rw (e, b) in
    ground (arith, none_out, v.window_low, v.woken)

work-moved :
    (s : System) (chunk : List ℕ) (more : Bool) (rest : Fragments)
    → s.sender.pending_outbound ≡ (chunk, more) ∷ rest
    → (suc (work (moved s chunk more rest)) ≤ work s)
      × ((moved s chunk more rest).messages ≡ s.messages)
unfolding work moved
work-moved s chunk more rest p = (
  omega (
    arith,
    ap (length {A = List ℕ × Bool}) p,
    length-append s.forward (info_of s.sender chunk more ∷ []),
  ),
  refl,
)

-- A sound system has a step to take, unless nothing is queued or under way.
advance :
    (s : System) → IsSound s → Advance s ⊎ ((s.forward ≡ []) × (s.sender.pending_outbound ≡ []))
advance s v = elim (List-cases s.backward) [
  | inr (h, rest, e) ↦ inl (record {
    after = do_ack h rest s;
    step = acks h rest e;
    less = work-do_ack s h rest e;
    kept = unfold do_ack in refl;
  })
  | inl b ↦ elim (List-cases s.forward) [
    | inr (i, rest, e) ↦ inl (record {
      after = do_deliver i rest s;
      step = delivers i rest e;
      less = work-do_deliver s i rest e v;
      kept = unfold do_deliver in refl;
    })
    | inl f ↦ elim (List-cases s.sender.pending_outbound) [
      | inl p ↦ inr (f, p)
      | inr ((chunk, more), rest, p) ↦
          let same = do_round-eq-moved s chunk more rest v.up p (window_open s f b v) in
          let (less, kept) = work-moved s chunk more rest p in
          inl (record {
            after = do_round s;
            step = rounds (runs_again s f b v);
            less = rw same less;
            kept = rw same kept;
          })
    ]
  ]
]

-- A system that `s` reaches by rounds, deliveries and acknowledgements, with nothing left to send.
pub record Drained (s : System) : Type 0 where
  pub end : System
  pub reach : Reach s end
  pub forward : end.forward ≡ []
  pub queue : end.sender.pending_outbound ≡ []
  pub messages : end.messages ≡ s.messages

drain_all : (n : ℕ) (s : System) → work s ≤ n → IsSound s → Drained s
drain_all zero s h v = elim (advance s v) [
  | inl a ↦ absurd (omega (arith, a.less))
  | inr (f, p) ↦ record { end = s; reach = here; forward = f; queue = p; messages = refl }
]
drain_all (suc n) s h v = elim (advance s v) [
  | inl a ↦
      let d = drain_all n a.after (omega (arith, a.less)) (Step-IsSound a.step v) in
      record {
        end = d.end;
        reach = Reach-trans (next here a.step) d.reach;
        forward = d.forward;
        queue = d.queue;
        messages = d.messages ∙ a.kept;
      }
  | inr (f, p) ↦ record { end = s; reach = here; forward = f; queue = p; messages = refl }
]

-- However a transfer of texts of 1 to 65536 bytes went so far, it can be completed: rounds of `drain`
-- by a task that is not waiting or was woken, deliveries and acknowledgements lead to a system with
-- nothing queued or under way, where the reader has every text, in order.
pub transfer_completes :
    (s t : System)
    → IsFresh s
    → Reach s t
    → (u : System) × Reach t u × (u.receiver.reader_data ≡ t.messages)
transfer_completes s t f r =
    let v = Reach-IsSound (IsFresh-IsSound s f) r in
    let d = drain_all (work t) t (omega arith) v in
    (
      d.end,
      d.reach,
      transfer_exact s d.end f (Reach-trans r d.reach) d.forward d.queue ∙ d.messages,
    )
