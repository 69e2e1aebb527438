-- ===== src/Netrom/Manager/Removal.antt =====
-- The end of circuits: the shutdown of a crosslink, and what the removal of a circuit takes away.
use bbs.Prelude.{
  ℕ, zero, suc, ◌∙◌, ◌+◌, ◌%◌, ◌≡◌, ◌≢◌, ◌<◌, refl, List, [], ◌∷◌, none, some, get_elem?, set,
  length, arith, nat_eq, pair_eq, ◌=?◌, if◌then◌else◌, get_elem?-set_self, get_elem?-set_ne, ◌⊎◌,
  inl, inr, Option-cases, false, Bool-cases, ◌==◌, ==_iff,
}
use bbs.Text.{Text}
use bbs.Dict.{Dict, get, put, values}
use bbs.Dict.Laws.{get-remove}
use bbs.Netrom.Circuit.{NetromCircuit, closed, awaiting_connect}
use bbs.Netrom.Circuit.Lifecycle.{set_closed}
use bbs.Netrom.Manager.{Manager, Key, Ref, remote_key, max_local_circuits}
use bbs.Netrom.Manager.Idle.{arm_idle_timer, cancel_idle_timer}
use bbs.Netrom.Manager.Tables.{
  first_free, allocate_local_idx, allocate_local_id, new_circuit, remove_circuit,
}
use bbs.Netrom.Manager.Dispatch.{close_all, shutdown, at_ref, clamp_proposed}
use bbs.Netrom.Manager.Originate.{add_outbound, originate_start, originate_timeout}
use bbs.Netrom.Manager.Allocation.{get_elem?-last}

-- The circuit behind a reference is closed.
record IsClosedAt (heap : List NetromCircuit) (r : Ref) : Type 0 where
  c : NetromCircuit
  found : get_elem? heap r ≡ some c
  shut : c.state ≡ closed

abbrev Listed : Ref → List Ref → Type 0
Listed r [] = ⊥
Listed r (s ∷ refs) = (r ≡ s) ⊎ Listed r refs

set_closed-closed : (c : NetromCircuit) → (set_closed c).state ≡ closed
unfolding set_closed
set_closed-closed c = ground arith

get_elem?-lt :
    (heap : List NetromCircuit) (r : Ref) {c : NetromCircuit}
    → get_elem? heap r ≡ some c
    → r < length heap
get_elem?-lt [] r p = cc
get_elem?-lt (x ∷ heap) zero p = omega arith
get_elem?-lt (x ∷ heap) (suc r) p = omega (arith, get_elem?-lt heap r p)

abbrev close_one : Ref → List NetromCircuit → List NetromCircuit
close_one r heap = at_ref (get_elem? heap r) heap (λ c. set heap r (set_closed c))

close_one-closes :
    (heap : List NetromCircuit) (r : Ref) {c : NetromCircuit}
    → get_elem? heap r ≡ some c
    → IsClosedAt (close_one r heap) r
close_one-closes heap r {c} p = rw p (record {
  c = set_closed c;
  found = get_elem?-set_self heap r (set_closed c) (get_elem?-lt heap r p);
  shut = set_closed-closed c;
})

-- Closing another circuit leaves this one as it is.
close_one-other :
    (heap : List NetromCircuit) (r s : Ref)
    → s ≢ r
    → get_elem? (close_one s heap) r ≡ get_elem? heap r
close_one-other heap r s ne = elim (Option-cases (get_elem? heap s)) [
  | inl p ↦ rw p
  | inr (d, p) ↦ rw p (get_elem?-set_ne heap (set_closed d) ne)
]

close_one-keeps :
    (heap : List NetromCircuit) (r s : Ref) → IsClosedAt heap r → IsClosedAt (close_one s heap) r
close_one-keeps heap r s v = elim (Bool-cases (s == r)) [
  | inl e ↦ let same : s ≡ r = (==_iff s r).0 e in rw same (close_one-closes heap r v.found)
  | inr e ↦
      let ne : s ≢ r = λ p. cc (e, (==_iff s r).1 p) in
      record { c = v.c; found = rw (close_one-other heap r s ne) (v.found); shut = v.shut }
]

close_all-keeps :
    (refs : List Ref) (heap : List NetromCircuit) (r : Ref)
    → IsClosedAt heap r
    → IsClosedAt (close_all refs heap) r
unfolding close_all
close_all-keeps [] heap r v = v
close_all-keeps (s ∷ refs) heap r v =
    close_all-keeps refs (close_one s heap) r (close_one-keeps heap r s v)

close_all-closes :
    (refs : List Ref) (heap : List NetromCircuit) (r : Ref) {c : NetromCircuit}
    → Listed r refs
    → get_elem? heap r ≡ some c
    → IsClosedAt (close_all refs heap) r
unfolding close_all
close_all-closes [] heap r l p = absurd l
close_all-closes (s ∷ refs) heap r (inl e) p =
    close_all-keeps refs (close_one s heap) r (rw (← e) (close_one-closes heap r p))
close_all-closes (s ∷ refs) heap r {c} (inr l) p = elim (Bool-cases (s == r)) [
  | inl e ↦
      let same : s ≡ r = (==_iff s r).0 e in
      close_all-keeps refs (close_one s heap) r (rw same (close_one-closes heap r p))
  | inr e ↦
      let ne : s ≢ r = λ q. cc (e, (==_iff s r).1 q) in
      close_all-closes refs (close_one s heap) r {c = c} l (rw (close_one-other heap r s ne) p)
]

get-Listed : (d : Dict Key Ref) (k : Key) {r : Ref} → get d k ≡ some r → Listed r (values d)
unfolding get
get-Listed [] k p = cc
get-Listed ((j, s) ∷ d) k {r} p = elim (Bool-cases (j =? k)) [
  | inl e ↦ inl (ground arith)
  | inr e ↦ inr (get-Listed d k (ground arith))
]

-- The shutdown of a crosslink closes every circuit of its table, empties both tables, the set of
-- used indices and the tasks, and sends nothing.
pub shutdown-closes :
    (m : Manager) (k : Key) (r : Ref) (c : NetromCircuit)
    → get m.by_local_key k ≡ some r
    → get_elem? m.heap r ≡ some c
    → ((c' : NetromCircuit) × (get_elem? (shutdown m).heap r ≡ some c') × (c'.state ≡ closed))
      × ((shutdown m).by_local_key ≡ [])
      × ((shutdown m).by_remote_key ≡ [])
      × ((shutdown m).used_local_idx ≡ [])
      × ((shutdown m).user_tasks ≡ [])
      × ((shutdown m).link ≡ m.link)
unfolding shutdown cancel_idle_timer
shutdown-closes m k r c p q =
    let v = close_all-closes (values m.by_local_key) m.heap r (get-Listed m.by_local_key k p) q in
    ((v.c, v.found, v.shut), refl, refl, refl, refl, refl)

-- A circuit as originate leaves it on the heap.
record IsCalling (d : Ref × Manager) : Type 0 where
  c : NetromCircuit
  found : get_elem? d.1.heap d.0 ≡ some c
  remote : remote_key c ≡ (0, 0)

add_outbound-IsCalling :
    (dest user : Text) (window idx id : ℕ) (m : Manager)
    → IsCalling (add_outbound dest user window idx id m)
unfolding add_outbound new_circuit
add_outbound-IsCalling dest user window idx id m = record {
  c = new_circuit m idx id (0, 0) user dest awaiting_connect (clamp_proposed window);
  found =
      get_elem?-last m.heap
        (new_circuit m idx id (0, 0) user dest awaiting_connect (clamp_proposed window));
  remote = refl;
}

start-IsCalling :
    (dest user : Text) (window : ℕ) (m : Manager) (d : Ref × Manager)
    → originate_start dest user window m ≡ some d
    → IsCalling d
unfolding originate_start allocate_local_idx allocate_local_id cancel_idle_timer
start-IsCalling dest user window m d p =
    elim (Option-cases (first_free max_local_circuits 0 m.used_local_idx)) [
      | inl e ↦ absurd (cc (rw e at p))
      | inr (i, e) ↦
          let id : ℕ = (m.next_local_id + 1) % 256 in
          let m₂ : Manager = record m {
            idle_handle = false;
            used_local_idx = put m.used_local_idx i tt;
            next_local_id = id;
          } in
          let q : add_outbound dest user window i id m₂ ≡ d = cc (rw e at p) in
          rw (← q) (add_outbound-IsCalling dest user window i id m₂)
    ]

-- When the wait of an originated circuit times out, with the circuit on the heap as originate left
-- it, whatever else happened to the manager, the entry of the remote key (0, 0) leaves the remote
-- table, whichever circuit it stands for, and no other entry does.
pub originate_timeout-remote :
    (dest user : Text) (window : ℕ) (m m' later : Manager) (r : Ref) (k : Key)
    → originate_start dest user window m ≡ some (r, m')
    → get_elem? later.heap r ≡ get_elem? m'.heap r
    → get (originate_timeout r later).by_remote_key k
      ≡ (if (0, 0) =? k then none else get later.by_remote_key k)
unfolding originate_timeout remove_circuit arm_idle_timer
originate_timeout-remote dest user window m m' later r k p same =
    let v = start-IsCalling dest user window m (r, m') p in
    let here : get_elem? later.heap r ≡ some v.c = same ∙ v.found in
    let key : remote_key v.c ≡ (0, 0) = v.remote in
    ground (arith, here, key, get-remove later.by_remote_key (0, 0) k)
