-- ===== src/Netrom/Manager/Indexed.antt =====
-- How the tables and the heap of the circuit manager belong together.
pub mod Frames
pub mod Dispatched
use bbs.Prelude.{
  ℕ, zero, suc, ◌+◌, ◌≡◌, ◌≢◌, ◌<◌, refl, sym, ap, ◌∙◌, Bool, true, false, List, [], ◌∷◌, ◌++◌,
  Option, none, some, get_elem?, set, length, leb, arith, nat_eq, pair_eq, pair_beq_iff, Eq, ◌=?◌,
  beq_refl, if◌then◌else◌, get_elem?-set_self, get_elem?-set_ne, ◌⊎◌, inl, inr, Option-cases,
  Bool-cases, ◌==◌, ==_iff,
}
use bbs.Dict.{Dict, get, has, put, remove}
use bbs.Dict.Laws.{get-put, get-remove, has-put, has-remove}
use bbs.Ax25.NetromFrame.Frame.{
  ConnectRequest, ConnectAck, Information, L3Frame, connect_request, connect_ack, disconnect,
  information, information_ack,
}
use bbs.Ax25.NetromFrame.Header.{L3Header}
use bbs.Netrom.Circuit.{NetromCircuit, Link, advance_va, send_connect_ack}
use bbs.Netrom.Circuit.Lifecycle.{set_closed}
use bbs.Netrom.Circuit.Inbound.{
  handle_information, handle_information_ack, handle_connect_ack, handle_disconnect_request,
  handle_disconnect_ack, reassemble,
}
use bbs.Netrom.Manager.{Manager, Key, Ref, local_key, update, max_local_circuits}
use bbs.Netrom.Manager.Idle.{arm_idle_timer}
use bbs.Netrom.Manager.Tables.{remove_circuit, open_circuit}
use bbs.Netrom.Manager.Dispatch.{
  handle_frame, route_frame, dispatch, header_of, handle_connect_request, resend_ack,
  send_connect_refusal, clamp_proposed, start_session,
}
use bbs.Netrom.Manager.Allocation.{
  Accepted, requested, handle_connect_request_accepts, get_elem?-last,
}

-- The index of a circuit in the local table is in use, no two of its circuits share an index, and a
-- reference leads to the circuit of its key.
pub record IsIndexed (m : Manager) : Type 0 where
  pub used : (k : Key) (r : Ref) → get m.by_local_key k ≡ some r → has m.used_local_idx k.0 ≡ true
  pub unique :
      (i a b : ℕ) (r s : Ref)
      → get m.by_local_key (i, a) ≡ some r
      → get m.by_local_key (i, b) ≡ some s
      → a ≡ b
  pub addressed :
      (k : Key) (r : Ref)
      → get m.by_local_key k ≡ some r
      → (c : NetromCircuit) × (get_elem? m.heap r ≡ some c) × (local_key c ≡ k)

get_elem?-lt :
    (heap : List NetromCircuit) (r : Ref) {c : NetromCircuit}
    → get_elem? heap r ≡ some c
    → r < length heap
get_elem?-lt [] r p = cc
get_elem?-lt (x ∷ heap) zero p = omega arith
get_elem?-lt (x ∷ heap) (suc r) p = omega (arith, get_elem?-lt heap r p)

set-addressed :
    (heap : List NetromCircuit) (r s : Ref) (c c' d : NetromCircuit) (k : Key)
    → get_elem? heap r ≡ some c
    → local_key c' ≡ local_key c
    → get_elem? heap s ≡ some d
    → local_key d ≡ k
    → (e : NetromCircuit) × (get_elem? (set heap r c') s ≡ some e) × (local_key e ≡ k)
set-addressed heap r s c c' d k p same q keyed = elim (Bool-cases (r == s)) [
  | inl e ↦
      let at_r : r ≡ s = (==_iff r s).0 e in
      let one : c ≡ d = ground (arith, at_r, p, q) in
      (
        c',
        rw (← at_r) (get_elem?-set_self heap r c' (get_elem?-lt heap r p)),
        same ∙ ap local_key one ∙ keyed,
      )
  | inr e ↦
      let ne : r ≢ s = λ x. cc (e, (==_iff r s).1 x) in
      (d, rw (get_elem?-set_ne heap c' ne) q, keyed)
]

pub update-IsIndexed :
    (r : Ref) (c : NetromCircuit) (p : NetromCircuit × Link) (m : Manager)
    → get_elem? m.heap r ≡ some c
    → local_key p.0 ≡ local_key c
    → IsIndexed m
    → IsIndexed (update r p m)
unfolding update
update-IsIndexed r c (c', link) m found same v = record {
  used = v.used;
  unique = v.unique;
  addressed = λ k s q.
      let (d, at_s, keyed) = v.addressed k s q in
      set-addressed m.heap r s c c' d k found same at_s keyed;
}

removed_tables :
    (c : NetromCircuit) (m : Manager)
    → ((remove_circuit c m).by_local_key ≡ remove m.by_local_key (local_key c))
      × ((remove_circuit c m).used_local_idx ≡ remove m.used_local_idx c.local_idx)
      × ((remove_circuit c m).heap ≡ m.heap)
unfolding remove_circuit arm_idle_timer
removed_tables c m = ground arith

-- A key that is left after the removal of another one.
get-remove-some :
    (d : Dict Key Ref) (key k : Key) {s : Ref}
    → get (remove d key) k ≡ some s
    → (get d k ≡ some s) × (key ≢ k)
get-remove-some d key k {s} q = elim (Bool-cases (key =? k)) [
  | inl e ↦ absurd (ground (arith, get-remove d key k))
  | inr e ↦ (ground (arith, get-remove d key k), λ p. cc (e, (pair_beq_iff key k).1 p))
]

has-remove-other :
    (used : Dict ℕ (Unit {0})) (i j : ℕ) → i ≢ j → has used j ≡ true → has (remove used i) j ≡ true
has-remove-other used i j ne h = ground (arith, has-remove used i j, ==_iff i j)

pub remove_circuit-IsIndexed :
    (c : NetromCircuit) (m : Manager) (r : Ref)
    → get m.by_local_key (local_key c) ≡ some r
    → IsIndexed m
    → IsIndexed (remove_circuit c m)
remove_circuit-IsIndexed c m r found v =
    let (keys_left, indices_left, heap_left) = removed_tables c m in
    record {
      used = λ k s q.
          let (was, ne) = get-remove-some m.by_local_key (local_key c) k (rw keys_left at q) in
          let other : c.local_idx ≢ k.0 = λ e.
            ne (rw e (ap (λ x. (k.0, x)) (v.unique k.0 c.local_id k.1 r s (rw e at found) was))) in
          rw indices_left
            (has-remove-other m.used_local_idx c.local_idx k.0 other (v.used k s was));
      unique = λ i a b s t p q.
          v.unique i a b s t
            (get-remove-some m.by_local_key (local_key c) (i, a) (rw keys_left at p)).0
            (get-remove-some m.by_local_key (local_key c) (i, b) (rw keys_left at q)).0;
      addressed = λ k s q.
          rw heap_left (
            v.addressed k s (get-remove-some m.by_local_key (local_key c) k (rw keys_left at q)).0);
    }
