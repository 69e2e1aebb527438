-- ===== src/Netrom/Manager/Indexed/Dispatched.antt =====
-- The tables of the circuit manager under a CONNECT REQUEST, and under any frame.
use bbs.Prelude.{
  ℕ, zero, suc, ◌≡◌, ◌≢◌, refl, sym, ap, ◌∙◌, false, List, [], ◌∷◌, ◌++◌, some, get_elem?, length,
  leb, arith, nat_eq, pair_eq, pair_beq_iff, ◌=?◌, ◌⊎◌, inl, inr, Option-cases, Bool-cases,
}
use bbs.Dict.{Dict, get, has, put}
use bbs.Dict.Laws.{get-put, has-put}
use bbs.Ax25.NetromFrame.Frame.{
  ConnectRequest, L3Frame, connect_request, connect_ack, disconnect, information, information_ack,
}
use bbs.Netrom.Circuit.{NetromCircuit, send_connect_ack}
use bbs.Netrom.Manager.{Manager, Key, Ref, local_key, max_local_circuits}
use bbs.Netrom.Manager.Dispatch.{
  route_frame, dispatch, handle_connect_request, resend_ack, send_connect_refusal,
}
use bbs.Netrom.Manager.Allocation.{
  Accepted, requested, handle_connect_request_accepts, get_elem?-last,
}
use bbs.Netrom.Manager.Indexed.{IsIndexed, update-IsIndexed}
use bbs.Netrom.Manager.Indexed.Frames.{route_frame-IsIndexed}

get_elem?-append :
    (heap : List NetromCircuit) (r : Ref) (c d : NetromCircuit)
    → get_elem? heap r ≡ some d
    → get_elem? (heap ++ c ∷ []) r ≡ some d
get_elem?-append [] r c d p = cc
get_elem?-append (x ∷ heap) zero c d p = p
get_elem?-append (x ∷ heap) (suc r) c d p = get_elem?-append heap r c d p

-- A key of the table behind a new entry is the new one, or was there.
get-put-some :
    (d : Dict Key Ref) (key k : Key) (r s : Ref)
    → get (put d key r) k ≡ some s
    → ((key ≡ k) × (r ≡ s)) ⊎ ((get d k ≡ some s) × (key ≢ k))
get-put-some d key k r s q = elim (Bool-cases (key =? k)) [
  | inl e ↦ inl ((pair_beq_iff key k).0 e, ground (arith, get-put d key k r))
  | inr e ↦ inr (ground (arith, get-put d key k r), λ p. cc (e, (pair_beq_iff key k).1 p))
]

-- A free index stands in no key of the table.
free_key :
    (m : Manager) (i a : ℕ) (r : Ref)
    → IsIndexed m
    → has m.used_local_idx i ≡ false
    → get m.by_local_key (i, a) ≡ some r
    → ⊥
free_key m i a r v free p = cc (free, v.used (i, a) r p)

put_unique :
    (m : Manager) (v : IsIndexed m) (j z : ℕ) (n : Ref) (i x y : ℕ) (s t : Ref)
    → has m.used_local_idx j ≡ false
    → get (put m.by_local_key (j, z) n) (i, x) ≡ some s
    → get (put m.by_local_key (j, z) n) (i, y) ≡ some t
    → x ≡ y
put_unique m v j z n i x y s t free p q = elim (get-put-some m.by_local_key (j, z) (i, x) n s p) [
  | inl (e, _) ↦ elim (get-put-some m.by_local_key (j, z) (i, y) n t q) [
    | inl (f, _) ↦ ap (λ k. k.1) (sym e ∙ f)
    | inr (was, _) ↦
        let same : j ≡ i = ap (λ k. k.0) e in absurd (free_key m i y t v (rw same at free) was)
  ]
  | inr (was, _) ↦ elim (get-put-some m.by_local_key (j, z) (i, y) n t q) [
    | inl (f, _) ↦
        let same : j ≡ i = ap (λ k. k.0) f in absurd (free_key m i x s v (rw same at free) was)
    | inr (was', _) ↦ v.unique i x y s t was was'
  ]
]

Accepted-IsIndexed :
    (q : ConnectRequest) (m m' : Manager) → Accepted q m m' → IsIndexed m → IsIndexed m'
Accepted-IsIndexed q m m' a v =
    let c = a.c in
    let n = length m.heap in
    record {
      used = λ k s p.
          elim (get-put-some m.by_local_key (local_key c) k n s (rw (a.local_table) at p)) [
            | inl (e, _) ↦
                rw (a.indices)
                  (rw (← e) (ground (arith, has-put m.used_local_idx c.local_idx c.local_idx tt)))
            | inr (was, _) ↦
                rw (a.indices)
                  (ground (arith, has-put m.used_local_idx c.local_idx k.0 tt, v.used k s was))
          ];
      unique = λ i x y s t p p'.
          put_unique m v c.local_idx c.local_id n i x y s t (a.index_free) (rw (a.local_table) at p)
            (rw (a.local_table) at p');
      addressed = λ k s p.
          elim (get-put-some m.by_local_key (local_key c) k n s (rw (a.local_table) at p)) [
            | inl (e, f) ↦ (c, rw (a.heap) (rw (← f) (get_elem?-last m.heap c)), e)
            | inr (was, _) ↦
                let (d, found, keyed) = v.addressed k s was in
                (d, rw (a.heap) (get_elem?-append m.heap s c d found), keyed)
          ];
    }

resend_ack-IsIndexed : (r : Ref) (m : Manager) → IsIndexed m → IsIndexed (resend_ack r m)
unfolding resend_ack
resend_ack-IsIndexed r m v = elim (Option-cases (get_elem? m.heap r)) [
  | inl p ↦ rw (p, resend_ack) v
  | inr (c, p) ↦
      rw (p, resend_ack)
        (update-IsIndexed r c (send_connect_ack c c.accepted_window false m.link) m p
          (unfold send_connect_ack in refl) v)
]

refusal-IsIndexed :
    (q : ConnectRequest) (m : Manager) → IsIndexed m → IsIndexed (send_connect_refusal q m)
unfolding send_connect_refusal
refusal-IsIndexed q m v = record { used = v.used; unique = v.unique; addressed = v.addressed }

handle_connect_request-IsIndexed :
    (q : ConnectRequest) (m m' : Manager)
    → handle_connect_request q m ≡ some m'
    → IsIndexed m
    → IsIndexed m'
handle_connect_request-IsIndexed q m m' e v =
    elim (Option-cases (get m.by_remote_key (requested q))) [
      | inr (r, p) ↦
          let same : resend_ack r m ≡ m' = unfold handle_connect_request in ground (arith, p, e) in
          rw (← same) (resend_ack-IsIndexed r m v)
      | inl p ↦ elim (Bool-cases (leb max_local_circuits (length m.used_local_idx))) [
        | inl full ↦
            let same : send_connect_refusal q m ≡ m' =
              unfold handle_connect_request in ground (arith, p, e, full) in
            rw (← same) (refusal-IsIndexed q m v)
        | inr room ↦
            let (m'', f, a) = handle_connect_request_accepts q m p (ground (arith, room)) in
            let same : m'' ≡ m' = ground (arith, e, f) in
            rw (← same) (Accepted-IsIndexed q m m'' a v)
      ]
    ]

-- Every frame that is dispatched keeps the tables in step: the index of a circuit in the local table
-- is in use, no two of its circuits share an index, and each reference leads to the circuit of its key.
pub dispatch-IsIndexed :
    (f : L3Frame) (m m' : Manager) → dispatch f m ≡ some m' → IsIndexed m → IsIndexed m'
unfolding dispatch
dispatch-IsIndexed (connect_request q) m m' e v = handle_connect_request-IsIndexed q m m' e v
dispatch-IsIndexed (connect_ack a) m m' e v =
    let same : route_frame (connect_ack a) m ≡ m' = cc in
    rw (← same) (route_frame-IsIndexed (connect_ack a) m v)
dispatch-IsIndexed (disconnect h) m m' e v =
    let same : route_frame (disconnect h) m ≡ m' = cc in
    rw (← same) (route_frame-IsIndexed (disconnect h) m v)
dispatch-IsIndexed (information i) m m' e v =
    let same : route_frame (information i) m ≡ m' = cc in
    rw (← same) (route_frame-IsIndexed (information i) m v)
dispatch-IsIndexed (information_ack h) m m' e v =
    let same : route_frame (information_ack h) m ≡ m' = cc in
    rw (← same) (route_frame-IsIndexed (information_ack h) m v)
