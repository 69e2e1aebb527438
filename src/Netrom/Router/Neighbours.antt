-- ===== src/Netrom/Router/Neighbours.antt =====
-- What reconciliation leaves of the neighbour list.
use bbs.Prelude.{
  ℕ, ◌+◌, ◌≡◌, refl, Bool, false, ◌&&◌, not, List, [], ◌∷◌, Option, none, some, ◌==◌, if◌then◌else◌,
  ◌=?◌, nat_eq, list_eq, list_beq_iff, arith, Bool-cases, inl, inr,
}
use bbs.Text.{Text, upper}
use bbs.Dict.{Dict, get, has, put}
use bbs.Dict.Laws.{get-put}
use bbs.Dict.Totals.{Distinct, get_or_zero}
use bbs.Netrom.Router.{RouteEntry, NeighbourEntry, NetromRouter}
use bbs.Netrom.Router.Aging.{tally, tally_routes, counted, reconcile_neighbours}
use bbs.Netrom.Router.Buckets.{vias}

-- The routes of the table through a neighbour.
abbrev pub uses : Text → Dict Text (List RouteEntry) → ℕ
uses c [] = 0
uses c ((key, b) ∷ d) = vias c b + uses c d

-- A neighbour without routes stays only if it is locked or has a crosslink.
abbrev pub reconciled : ℕ → Bool → Option NeighbourEntry → Option NeighbourEntry
reconciled n live none = none
reconciled n live (some e) =
    if n == 0 && (not e.locked && not live) then none else some (record e { use_count = n })

tally_lem :
    (b : List RouteEntry) (u : Dict Text ℕ) (c : Text)
    → get_or_zero (get (tally b u) c) ≡ get_or_zero (get u c) + vias c b
unfolding tally
tally_lem [] u c = omega arith
tally_lem (r ∷ b) u c =
    let v : Text = upper r.via_call in
    let n : ℕ = get_or_zero (get u v) + 1 in
    ground (arith, tally_lem b (put u v n) c, get-put u v c n, list_beq_iff v c)

tally_routes_lem :
    (d : Dict Text (List RouteEntry)) (u : Dict Text ℕ) (c : Text)
    → get_or_zero (get (tally_routes d u) c) ≡ get_or_zero (get u c) + uses c d
unfolding tally_routes
tally_routes_lem [] u c = omega arith
tally_routes_lem ((key, b) ∷ d) u c =
    omega (arith, tally_routes_lem d (tally b u) c, tally_lem b u c)

counted_absent :
    (u : Dict Text ℕ) (x : Dict Text (Unit {0})) (d : Dict Text NeighbourEntry) (c : Text)
    → has d c ≡ false
    → get (counted u x d) c ≡ none
unfolding counted has get
counted_absent u x [] c h = refl
counted_absent u x ((k, n) ∷ d) c h = ground (arith, counted_absent u x d c)

counted_lem :
    (u : Dict Text ℕ) (x : Dict Text (Unit {0})) (d : Dict Text NeighbourEntry) (c : Text)
    → Distinct d
    → get (counted u x d) c ≡ reconciled (get_or_zero (get u c)) (has x c) (get d c)
unfolding counted get
counted_lem u x [] c v = refl
counted_lem u x ((k, n) ∷ d) c v = elim (Bool-cases (k =? c)) [
  | inl e ↦
      let same : k ≡ c = (list_beq_iff k c).0 e in ground (arith, same, e, counted_absent u x d c)
  | inr e ↦ ground (arith, e, counted_lem u x d c v.1)
]

-- In a neighbour list with one entry per callsign, reconciliation sets the use-count of every neighbour to the number of routes through it, and
-- deletes exactly those that have none, are not locked and have no crosslink.
pub reconcile_neighbours_lem :
    (g : NetromRouter) (c : Text)
    → Distinct g.neighbours
    → get (reconcile_neighbours g).neighbours c
      ≡ reconciled (uses c g.routes) (has g.crosslinks c) (get g.neighbours c)
unfolding reconcile_neighbours
reconcile_neighbours_lem g c v =
    let u : Dict Text ℕ = tally_routes g.routes [] in
    let n : get_or_zero (get u c) ≡ uses c g.routes =
      unfold get in omega (arith, tally_routes_lem g.routes [] c) in
    rw (← n) (counted_lem u g.crosslinks g.neighbours c v)
