-- ===== src/Netrom/Router/Buckets.antt =====
-- The shape of the routing table, and `_upsert_route` of bbs/netrom/router.py.
use bbs.Prelude.{
  ℕ, zero, suc, ◌≤◌, ◌≡◌, refl, ◌&&◌, List, [], ◌∷◌, some, ◌==◌, if◌then◌else◌, ◌=?◌, nat_eq,
  list_eq, list_beq_iff, length, take, length-take, arith, Option-cases, inl, inr,
}
use bbs.Text.{Text, upper}
use bbs.Dict.{Dict, get, put}
use bbs.Dict.Totals.{Distinct, Distinct-put}
use bbs.Netrom.Router.{RouteEntry, NetromRouter, max_routes_per_dest}
use bbs.Netrom.Router.Table.{
  place, insert_by_quality, sort_by_quality, upsert_bucket, upsert_route, bucket_of,
}

abbrev pub AllBelow : ℕ → List RouteEntry → Type 0
AllBelow q [] = Unit
AllBelow q (r ∷ b) = (r.quality ≤ q) × AllBelow q b

abbrev pub IsDesc : List RouteEntry → Type 0
IsDesc [] = Unit
IsDesc (r ∷ b) = AllBelow r.quality b × IsDesc b

abbrev pub AllTo : Text → List RouteEntry → Type 0
AllTo key [] = Unit
AllTo key (r ∷ b) = (upper r.dest_call ≡ key) × AllTo key b

-- The number of routes through a neighbour.
abbrev pub vias : Text → List RouteEntry → ℕ
vias c [] = 0
vias c (r ∷ b) = if upper r.via_call =? c then suc (vias c b) else vias c b

-- Sorted by quality, for one destination, at most three routes, one per neighbour, and not empty.
pub record IsBucket (key : Text) (b : List RouteEntry) : Type 0 where
  pub sorted : IsDesc b
  pub to_key : AllTo key b
  pub short : length b ≤ max_routes_per_dest
  pub one_each : (c : Text) → vias c b ≤ 1
  pub nonempty : 1 ≤ length b

abbrev pub AllBuckets : Dict Text (List RouteEntry) → Type 0
AllBuckets [] = Unit
AllBuckets ((key, b) ∷ d) = IsBucket key b × AllBuckets d

pub record IsWellFormed (g : NetromRouter) : Type 0 where
  pub distinct : Distinct g.routes
  pub buckets : AllBuckets g.routes

pub AllBelow-le : (b : List RouteEntry) {p q : ℕ} → AllBelow p b → p ≤ q → AllBelow q b
AllBelow-le [] h le = tt
AllBelow-le (r ∷ b) {p} {q} h le = (omega (arith, h.0, le), AllBelow-le b {p = p} {q = q} h.1 le)

AllBelow-insert :
    (r : RouteEntry) (b : List RouteEntry) {q : ℕ}
    → r.quality ≤ q
    → AllBelow q b
    → AllBelow q (insert_by_quality r b)
unfolding insert_by_quality
AllBelow-insert r [] le h = (le, tt)
AllBelow-insert r (s ∷ b) le h = ground (arith, AllBelow-insert r b le h.1)

insert-IsDesc : (r : RouteEntry) (b : List RouteEntry) → IsDesc b → IsDesc (insert_by_quality r b)
unfolding insert_by_quality
insert-IsDesc r [] h = (tt, tt)
insert-IsDesc r (s ∷ b) h = ground (
  arith,
  insert-IsDesc r b h.1,
  AllBelow-insert r b {q = s.quality},
  AllBelow-le b {p = s.quality} {q = r.quality},
)

sort-IsDesc : (b : List RouteEntry) → IsDesc (sort_by_quality b)
unfolding sort_by_quality
sort-IsDesc [] = tt
sort-IsDesc (r ∷ b) = insert-IsDesc r (sort_by_quality b) (sort-IsDesc b)

AllBelow-take : (n : ℕ) (b : List RouteEntry) (q : ℕ) → AllBelow q b → AllBelow q (take n b)
AllBelow-take zero b q h = tt
AllBelow-take (suc n) [] q h = tt
AllBelow-take (suc n) (r ∷ b) q h = (h.0, AllBelow-take n b q h.1)

take-IsDesc : (n : ℕ) (b : List RouteEntry) → IsDesc b → IsDesc (take n b)
take-IsDesc zero b h = tt
take-IsDesc (suc n) [] h = tt
take-IsDesc (suc n) (r ∷ b) h = (AllBelow-take n b r.quality h.0, take-IsDesc n b h.1)

insert-AllTo :
    (key : Text) (r : RouteEntry) (b : List RouteEntry)
    → upper r.dest_call ≡ key
    → AllTo key b
    → AllTo key (insert_by_quality r b)
unfolding insert_by_quality
insert-AllTo key r [] p h = (p, tt)
insert-AllTo key r (s ∷ b) p h = ground (arith, insert-AllTo key r b p h.1)

sort-AllTo : (key : Text) (b : List RouteEntry) → AllTo key b → AllTo key (sort_by_quality b)
unfolding sort_by_quality
sort-AllTo key [] h = tt
sort-AllTo key (r ∷ b) h = insert-AllTo key r (sort_by_quality b) h.0 (sort-AllTo key b h.1)

take-AllTo : (key : Text) (n : ℕ) (b : List RouteEntry) → AllTo key b → AllTo key (take n b)
take-AllTo key zero b h = tt
take-AllTo key (suc n) [] h = tt
take-AllTo key (suc n) (r ∷ b) h = (h.0, take-AllTo key n b h.1)

place-AllTo :
    (key : Text) (e : RouteEntry) (b : List RouteEntry)
    → upper e.dest_call ≡ key
    → AllTo key b
    → AllTo key (place e b)
unfolding place
place-AllTo key e [] p h = (p, tt)
place-AllTo key e (r ∷ b) p h = ground (arith, place-AllTo key e b p h.1)

vias-insert :
    (c : Text) (r : RouteEntry) (b : List RouteEntry)
    → vias c (insert_by_quality r b) ≡ vias c (r ∷ b)
unfolding insert_by_quality
vias-insert c r [] = refl
vias-insert c r (s ∷ b) = ground (arith, vias-insert c r b)

vias-sort : (c : Text) (b : List RouteEntry) → vias c (sort_by_quality b) ≡ vias c b
unfolding sort_by_quality
vias-sort c [] = refl
vias-sort c (r ∷ b) = ground (arith, vias-insert c r (sort_by_quality b), vias-sort c b)

vias-take-le : (c : Text) (n : ℕ) (b : List RouteEntry) → vias c (take n b) ≤ vias c b
vias-take-le c zero b = omega arith
vias-take-le c (suc n) [] = omega arith
vias-take-le c (suc n) (r ∷ b) = ground (arith, vias-take-le c n b)

vias-place :
    (c : Text) (e : RouteEntry) (b : List RouteEntry)
    → vias c (place e b) ≡ (if (upper e.via_call =? c) && (vias c b == 0) then 1 else vias c b)
unfolding place
vias-place c e [] = ground arith
vias-place c e (r ∷ b) = ground (
  arith,
  vias-place c e b,
  list_beq_iff (upper r.via_call) (upper e.via_call),
  list_beq_iff (upper r.via_call) c,
  list_beq_iff (upper e.via_call) c,
)

length-insert :
    (r : RouteEntry) (b : List RouteEntry) → length (insert_by_quality r b) ≡ suc (length b)
unfolding insert_by_quality
length-insert r [] = refl
length-insert r (s ∷ b) = ground (arith, length-insert r b)

length-sort : (b : List RouteEntry) → length (sort_by_quality b) ≡ length b
unfolding sort_by_quality
length-sort [] = refl
length-sort (r ∷ b) = omega (arith, length-insert r (sort_by_quality b), length-sort b)

length-place : (e : RouteEntry) (b : List RouteEntry) → 1 ≤ length (place e b)
unfolding place
length-place e [] = omega arith
length-place e (r ∷ b) = ground arith

upsert-IsBucket :
    (key : Text) (e : RouteEntry) (b : List RouteEntry)
    → upper e.dest_call ≡ key
    → AllTo key b
    → ((c : Text) → vias c b ≤ 1)
    → IsBucket key (upsert_bucket e b)
unfolding upsert_bucket
upsert-IsBucket key e b p to one =
    let sorted : List RouteEntry = sort_by_quality (place e b) in
    record {
      sorted = take-IsDesc max_routes_per_dest sorted (sort-IsDesc (place e b));
      to_key =
          take-AllTo key max_routes_per_dest sorted
            (sort-AllTo key (place e b) (place-AllTo key e b p to));
      short = omega (arith, length-take max_routes_per_dest sorted);
      one_each = λ c. ground (
        arith,
        vias-take-le c max_routes_per_dest sorted,
        vias-sort c (place e b),
        vias-place c e b,
        one c,
      );
      nonempty = omega (
        arith,
        length-take max_routes_per_dest sorted,
        length-sort (place e b),
        length-place e b,
      );
    }

pub AllBuckets-get :
    (d : Dict Text (List RouteEntry)) (key : Text) {b : List RouteEntry}
    → AllBuckets d
    → get d key ≡ some b
    → IsBucket key b
unfolding get
AllBuckets-get [] key h p = cc
AllBuckets-get ((k, b) ∷ d) key {b = c} h p =
    ground (arith, AllBuckets-get d key {b = c} h.1, list_beq_iff k key)

AllBuckets-put :
    (d : Dict Text (List RouteEntry)) (key : Text) (b : List RouteEntry)
    → AllBuckets d
    → IsBucket key b
    → AllBuckets (put d key b)
unfolding put
AllBuckets-put [] key b h v = (v, tt)
AllBuckets-put ((k, a) ∷ d) key b h v =
    ground (arith, AllBuckets-put d key b h.1 v, list_beq_iff k key)

upsert-IsBucket_at :
    (d : Dict Text (List RouteEntry)) (e : RouteEntry)
    → AllBuckets d
    → IsBucket (upper e.dest_call) (upsert_bucket e (bucket_of (get d (upper e.dest_call))))
upsert-IsBucket_at d e h = elim (Option-cases (get d (upper e.dest_call))) [
  | inl p ↦ rw p (upsert-IsBucket (upper e.dest_call) e [] refl tt (λ c. omega arith))
  | inr (b, p) ↦
      let v : IsBucket (upper e.dest_call) b = AllBuckets-get d (upper e.dest_call) h p in
      rw p (upsert-IsBucket (upper e.dest_call) e b refl v.to_key v.one_each)
]

pub upsert_route-IsWellFormed :
    (e : RouteEntry) (g : NetromRouter) → IsWellFormed g → IsWellFormed (upsert_route e g)
unfolding upsert_route
upsert_route-IsWellFormed e g v =
    let b : List RouteEntry = upsert_bucket e (bucket_of (get g.routes (upper e.dest_call))) in
    record {
      distinct = Distinct-put g.routes (upper e.dest_call) b v.distinct;
      buckets =
          AllBuckets-put g.routes (upper e.dest_call) b v.buckets
            (upsert-IsBucket_at g.routes e v.buckets);
    }
