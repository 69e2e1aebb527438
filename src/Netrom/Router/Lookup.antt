-- ===== src/Netrom/Router/Lookup.antt =====
-- bbs/netrom/router.py: the accessors, the test of adjacency and the choice of the next hop.
use bbs.Prelude.{
  ℕ, ◌+◌, Bool, false, ◌&&◌, ◌||◌, List, [], ◌∷◌, Option, none, some, ltb, leb, if◌then◌else◌, ◌=?◌,
  nat_eq, list_eq,
}
use bbs.Text.{Text, upper}
use bbs.Dict.{Dict, get, has}
use bbs.Dict.Totals.{get_or_zero}
use bbs.Netrom.Router.{RouteEntry, NeighbourEntry, NetromRouter, is_direct, is_routable_callsign}
use bbs.Netrom.Router.Table.{bucket_of}

-- The first bucket whose best route has the alias.
unfoldable pub by_alias : Text → Dict Text (List RouteEntry) → List RouteEntry
by_alias alias [] = []
by_alias alias ((key, []) ∷ d) = by_alias alias d
by_alias alias ((key, r ∷ b) ∷ d) =
    let rest = by_alias alias d in if upper r.alias =? alias then r ∷ b else rest

-- `if bucket:`
abbrev pub or_alias : Text → Dict Text (List RouteEntry) → List RouteEntry → List RouteEntry
or_alias dest d [] = by_alias dest d
or_alias dest d (r ∷ b) = r ∷ b

unfoldable pub get_routes : Text → NetromRouter → List RouteEntry
get_routes dest g = or_alias (upper dest) g.routes (bucket_of (get g.routes (upper dest)))

abbrev pub first : List RouteEntry → Option RouteEntry
first [] = none
first (r ∷ b) = some r

unfoldable pub get_route : Text → NetromRouter → Option RouteEntry
get_route dest g = first (get_routes dest g)

unfoldable pub any_via : Text → List RouteEntry → Bool
any_via c [] = false
any_via c (r ∷ b) = (upper r.via_call =? c) || any_via c b

unfoldable pub any_route_via : Text → Dict Text (List RouteEntry) → Bool
any_route_via c [] = false
any_route_via c ((key, b) ∷ d) = any_via c b || any_route_via c d

unfoldable pub is_known_node : Text → NetromRouter → Bool
is_known_node call g =
    (has g.routes (upper call) || has g.crosslinks (upper call))
    || any_route_via (upper call) g.routes

unfoldable pub any_fresh_direct : ℕ → ℕ → List RouteEntry → Bool
any_fresh_direct now ttl [] = false
any_fresh_direct now ttl (r ∷ b) =
    (is_direct r && leb now (r.last_seen + ttl)) || any_fresh_direct now ttl b

unfoldable pub has_fresh_direct_route : Text → ℕ → NetromRouter → Bool
has_fresh_direct_route call now g =
    any_fresh_direct now g.route_ttl (bucket_of (get g.routes (upper call)))

abbrev pub is_usable : Option NeighbourEntry → Bool
is_usable none = false
is_usable (some n) = ltb 0 n.path_quality

unfoldable pub is_direct_neighbor : Text → ℕ → NetromRouter → Bool
is_direct_neighbor call now g =
    let c = upper call in
    has g.crosslinks c
    || (is_usable (get g.neighbours c)
        || ((is_known_node c g && leb now (get_or_zero (get g.heard_direct c) + g.direct_heard_ttl))
            || has_fresh_direct_route c now g))

unfoldable pub usable_routes : ℕ → List RouteEntry → List RouteEntry
usable_routes min_quality [] = []
usable_routes min_quality (r ∷ b) =
    let rest = usable_routes min_quality b in if leb min_quality r.quality then r ∷ rest else rest

unfoldable pub first_reachable : ℕ → NetromRouter → List RouteEntry → Option RouteEntry
first_reachable now g [] = none
first_reachable now g (r ∷ b) =
    let rest = first_reachable now g b in
    if is_direct_neighbor r.via_call now g then some r else rest

-- `reachable or usable[0]`
abbrev pub chosen : Option RouteEntry → List RouteEntry → Option Text
chosen (some r) usable = some (upper r.via_call)
chosen none [] = none
chosen none (r ∷ b) = some (upper r.via_call)

abbrev pub dest_of : Text → List RouteEntry → Text
dest_of dest [] = upper dest
dest_of dest (r ∷ b) = upper r.dest_call

unfoldable pub best_neighbor_for : Text → ℕ → ℕ → NetromRouter → Option Text
best_neighbor_for dest min_quality now g =
    let routes = get_routes dest g in
    let dest_call = dest_of dest routes in
    let usable = usable_routes min_quality routes in
    if is_routable_callsign dest_call && is_direct_neighbor dest_call now g
    then some dest_call
    else chosen (first_reachable now g usable) usable
