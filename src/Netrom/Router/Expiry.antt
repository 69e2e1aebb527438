-- ===== src/Netrom/Router/Expiry.antt =====
-- What the obsolescence scan leaves of the routing table and of the neighbour list.
use bbs.Prelude.{
  ℕ, zero, suc, ◌≤◌, ◌<◌, ◌≡◌, refl, ap, true, false, List, [], ◌∷◌, nat_eq, list_eq, length, arith,
}
use bbs.Text.{Text}
use bbs.Dict.{Dict, has}
use bbs.Dict.Totals.{Distinct}
use bbs.Netrom.Router.{RouteEntry, NetromRouter}
use bbs.Netrom.Router.Aging.{
  keep_bucket, decay_bucket, decay_routes, decay_obsolescence, reconcile_neighbours,
}
use bbs.Netrom.Router.Buckets.{AllBelow, IsDesc, AllTo, vias, IsBucket, AllBuckets, IsWellFormed}

decay-AllBelow : (b : List RouteEntry) (q : ℕ) → AllBelow q b → AllBelow q (decay_bucket b)
unfolding decay_bucket
decay-AllBelow [] q h = tt
decay-AllBelow (r ∷ b) q h = ground (arith, decay-AllBelow b q h.1)

decay-IsDesc : (b : List RouteEntry) → IsDesc b → IsDesc (decay_bucket b)
unfolding decay_bucket
decay-IsDesc [] h = tt
decay-IsDesc (r ∷ b) h = ground (arith, decay-IsDesc b h.1, decay-AllBelow b r.quality h.0)

decay-AllTo : (key : Text) (b : List RouteEntry) → AllTo key b → AllTo key (decay_bucket b)
unfolding decay_bucket
decay-AllTo key [] h = tt
decay-AllTo key (r ∷ b) h = ground (arith, decay-AllTo key b h.1)

decay-length : (b : List RouteEntry) → length (decay_bucket b) ≤ length b
unfolding decay_bucket
decay-length [] = omega arith
decay-length (r ∷ b) = ground (arith, decay-length b)

decay-vias : (c : Text) (b : List RouteEntry) → vias c (decay_bucket b) ≤ vias c b
unfolding decay_bucket
decay-vias c [] = omega arith
decay-vias c (r ∷ b) = ground (arith, decay-vias c b)

has-keep :
    (key c : Text) (b : List RouteEntry) (d : Dict Text (List RouteEntry))
    → has d c ≡ false
    → key ≡ c
    → has (keep_bucket key b d) c ≡ true
    → 1 ≤ length b
unfolding has
has-keep key c [] d h p k = cc
has-keep key c (r ∷ b) d h p k = omega arith

has-decay :
    (d : Dict Text (List RouteEntry)) (c : Text) → has d c ≡ false → has (decay_routes d) c ≡ false
unfolding has decay_routes
has-decay [] c h = refl
has-decay ((key, b) ∷ d) c h = elim (decay_bucket b) [
  | [] ↦ ground (arith, has-decay d c)
  | r ∷ kept ↦ ground (arith, has-decay d c)
]

keep-AllBuckets :
    (key : Text) (b kept : List RouteEntry) (d : Dict Text (List RouteEntry))
    → IsBucket key b
    → IsDesc kept
    → AllTo key kept
    → length kept ≤ length b
    → ((c : Text) → vias c kept ≤ vias c b)
    → AllBuckets d
    → AllBuckets (keep_bucket key kept d)
keep-AllBuckets key b [] d v s t l c h = h
keep-AllBuckets key b (r ∷ kept) d v s t l fewer h = (
  record {
    sorted = s;
    to_key = t;
    short = omega (arith, v.short, l);
    one_each = λ c. omega (arith, v.one_each c, fewer c);
    nonempty = omega arith;
  },
  h,
)

decay-AllBuckets : (d : Dict Text (List RouteEntry)) → AllBuckets d → AllBuckets (decay_routes d)
unfolding decay_routes
decay-AllBuckets [] h = tt
decay-AllBuckets ((key, b) ∷ d) h =
    let v : IsBucket key b = h.0 in
    keep-AllBuckets key b (decay_bucket b) (decay_routes d) v (decay-IsDesc b v.sorted)
      (decay-AllTo key b v.to_key) (decay-length b) (λ c. decay-vias c b) (decay-AllBuckets d h.1)

keep-Distinct :
    (key : Text) (kept : List RouteEntry) (d : Dict Text (List RouteEntry))
    → has d key ≡ false
    → Distinct d
    → Distinct (keep_bucket key kept d)
keep-Distinct key [] d h v = v
keep-Distinct key (r ∷ kept) d h v = (h, v)

decay-Distinct : (d : Dict Text (List RouteEntry)) → Distinct d → Distinct (decay_routes d)
unfolding decay_routes
decay-Distinct [] h = tt
decay-Distinct ((key, b) ∷ d) h =
    keep-Distinct key (decay_bucket b) (decay_routes d) (has-decay d key h.0) (decay-Distinct d h.1)

-- The scan keeps the routing table in shape.
pub decay_obsolescence-IsWellFormed :
    (g : NetromRouter) → IsWellFormed g → IsWellFormed (decay_obsolescence g).1
unfolding decay_obsolescence reconcile_neighbours
decay_obsolescence-IsWellFormed g v =
    let scanned : IsWellFormed
        (reconcile_neighbours (record g { routes = decay_routes g.routes })) =
      record {
        distinct = decay-Distinct g.routes v.distinct;
        buckets = decay-AllBuckets g.routes v.buckets;
      } in
    ground (arith, v, scanned)

-- Routes that are not locked, with at most `n` scans to live.
abbrev pub AllWithin : ℕ → List RouteEntry → Type 0
AllWithin n [] = Unit
AllWithin n (r ∷ b) = (1 ≤ r.obs_count) × (r.obs_count ≤ n) × AllWithin n b

abbrev pub TableWithin : ℕ → Dict Text (List RouteEntry) → Type 0
TableWithin n [] = Unit
TableWithin n ((key, b) ∷ d) = AllWithin n b × TableWithin n d

unfoldable pub scans : ℕ → NetromRouter → NetromRouter
scans zero g = g
scans (suc n) g = scans n (decay_obsolescence g).1

decay-AllWithin : (n : ℕ) (b : List RouteEntry) → AllWithin (suc n) b → AllWithin n (decay_bucket b)
unfolding decay_bucket
decay-AllWithin n [] h = tt
decay-AllWithin n (r ∷ b) h = ground (arith, decay-AllWithin n b h.2)

keep-TableWithin :
    (n : ℕ) (key : Text) (b : List RouteEntry) (d : Dict Text (List RouteEntry))
    → AllWithin n b
    → TableWithin n d
    → TableWithin n (keep_bucket key b d)
keep-TableWithin n key [] d h v = v
keep-TableWithin n key (r ∷ b) d h v = (h, v)

decay-TableWithin :
    (n : ℕ) (d : Dict Text (List RouteEntry))
    → TableWithin (suc n) d
    → TableWithin n (decay_routes d)
unfolding decay_routes
decay-TableWithin n [] h = tt
decay-TableWithin n ((key, b) ∷ d) h =
    keep-TableWithin n key (decay_bucket b) (decay_routes d) (decay-AllWithin n b h.0)
      (decay-TableWithin n d h.1)

-- A table without routes, or with none that has a scan to live.
within_zero : (b : List RouteEntry) → AllWithin 0 b → b ≡ []
within_zero [] h = refl
within_zero (r ∷ b) h = absurd (omega (arith, h.0, h.1))

one_scan :
    (n : ℕ) (g : NetromRouter)
    → 0 < g.obs_initializer
    → TableWithin (suc n) g.routes
    → TableWithin n (decay_obsolescence g).1.routes × (0 < (decay_obsolescence g).1.obs_initializer)
unfolding decay_obsolescence reconcile_neighbours
one_scan n g on h = ground (arith, decay-TableWithin n g.routes h)

scans_within :
    (n : ℕ) (g : NetromRouter)
    → 0 < g.obs_initializer
    → TableWithin n g.routes
    → IsWellFormed g
    → TableWithin 0 (scans n g).routes × IsWellFormed (scans n g)
unfolding scans
scans_within zero g on h v = (h, v)
scans_within (suc n) g on h v =
    let (within, on') = one_scan n g on h in
    scans_within n (decay_obsolescence g).1 on' within (decay_obsolescence-IsWellFormed g v)

no_routes : (d : Dict Text (List RouteEntry)) → TableWithin 0 d → AllBuckets d → d ≡ []
no_routes [] h v = refl
no_routes ((key, b) ∷ d) h v =
    let w : IsBucket key b = v.0 in
    absurd (omega (arith, w.nonempty, ap length (within_zero b h.0)))

-- With decay on, a table of unlocked routes that have at most n scans to live is empty after n
-- scans without a broadcast.
pub scans_empty :
    (n : ℕ) (g : NetromRouter)
    → 0 < g.obs_initializer
    → IsWellFormed g
    → TableWithin n g.routes
    → (scans n g).routes ≡ []
scans_empty n g on v h =
    let (within, w) = scans_within n g on h v in no_routes (scans n g).routes within w.buckets
