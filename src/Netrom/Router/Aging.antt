-- ===== src/Netrom/Router/Aging.antt =====
-- bbs/netrom/router.py: the obsolescence scan, the pruning by age, and the neighbours without routes.
use bbs.Prelude.{
  ℕ, ◌+◌, ◌-◌, Bool, ◌&&◌, not, List, [], ◌∷◌, ltb, leb, ◌==◌, if◌then◌else◌, nat_eq, list_eq,
  length,
}
use bbs.Text.{Text, upper}
use bbs.Dict.{Dict, get, has, put, remove}
use bbs.Dict.Totals.{get_or_zero}
use bbs.Netrom.Router.{RouteEntry, NeighbourEntry, NetromRouter}

-- A destination without routes leaves the table.
abbrev pub keep_bucket :
    Text → List RouteEntry → Dict Text (List RouteEntry) → Dict Text (List RouteEntry)
keep_bucket key [] rest = rest
keep_bucket key (r ∷ b) rest = (key, r ∷ b) ∷ rest

-- `r.last_seen >= now - ttl`
unfoldable pub fresh : ℕ → ℕ → List RouteEntry → List RouteEntry
fresh now ttl [] = []
fresh now ttl (r ∷ b) =
    let rest = fresh now ttl b in if leb now (r.last_seen + ttl) then r ∷ rest else rest

unfoldable pub prune_routes : ℕ → ℕ → Dict Text (List RouteEntry) → Dict Text (List RouteEntry)
prune_routes now ttl [] = []
prune_routes now ttl ((key, b) ∷ d) = keep_bucket key (fresh now ttl b) (prune_routes now ttl d)

unfoldable pub route_count : Dict Text (List RouteEntry) → ℕ
route_count [] = 0
route_count ((key, b) ∷ d) = length b + route_count d

-- The count of pruned entries, and the router.
unfoldable pub prune_stale_routes : ℕ → NetromRouter → ℕ × NetromRouter
prune_stale_routes now g =
    let kept = prune_routes now g.route_ttl g.routes in
    (route_count g.routes - route_count kept, record g { routes = kept })

-- use_count[v] = use_count.get(v, 0) + 1, for every route of a bucket
unfoldable pub tally : List RouteEntry → Dict Text ℕ → Dict Text ℕ
tally [] uses = uses
tally (r ∷ b) uses = let v = upper r.via_call in tally b (put uses v (get_or_zero (get uses v) + 1))

unfoldable pub tally_routes : Dict Text (List RouteEntry) → Dict Text ℕ → Dict Text ℕ
unfolding tally
tally_routes [] uses = uses
tally_routes ((key, b) ∷ d) uses = tally_routes d (tally b uses)

unfoldable pub counted :
    Dict Text ℕ → Dict Text (Unit {0}) → Dict Text NeighbourEntry → Dict Text NeighbourEntry
counted uses crosslinks [] = []
counted uses crosslinks ((c, n) ∷ d) =
    let rest = counted uses crosslinks d in
    let used = get_or_zero (get uses c) in
    if used == 0 && (not n.locked && not (has crosslinks c))
    then rest
    else (c, record n { use_count = used }) ∷ rest

unfoldable pub reconcile_neighbours : NetromRouter → NetromRouter
reconcile_neighbours g = record g {
  neighbours = counted (tally_routes g.routes []) g.crosslinks g.neighbours;
}

unfoldable pub note_crosslink : Text → Bool → NetromRouter → NetromRouter
note_crosslink call up g =
    let c = upper call in
    let closed = reconcile_neighbours (record g { crosslinks = remove g.crosslinks c }) in
    if up then record g { crosslinks = put g.crosslinks c tt } else closed

-- A route with count 0 is locked; another loses one, and is deleted when none is left.
unfoldable pub decay_bucket : List RouteEntry → List RouteEntry
decay_bucket [] = []
decay_bucket (r ∷ b) =
    let rest = decay_bucket b in
    if r.obs_count == 0
    then r ∷ rest
    else if ltb 0 (r.obs_count - 1)
    then record r { obs_count = r.obs_count - 1 } ∷ rest
    else rest

unfoldable pub decay_routes : Dict Text (List RouteEntry) → Dict Text (List RouteEntry)
decay_routes [] = []
decay_routes ((key, b) ∷ d) = keep_bucket key (decay_bucket b) (decay_routes d)

-- The number of routes deleted, and the router.
unfoldable pub decay_obsolescence : NetromRouter → ℕ × NetromRouter
decay_obsolescence g =
    let kept = decay_routes g.routes in
    let scanned = reconcile_neighbours (record g { routes = kept }) in
    if g.obs_initializer == 0 then (0, g) else (route_count g.routes - route_count kept, scanned)
