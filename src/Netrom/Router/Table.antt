-- ===== src/Netrom/Router/Table.antt =====
-- bbs/netrom/router.py: a NODES broadcast enters the routing table.
use bbs.Prelude.{
  ℕ, ◌+◌, ◌*◌, ◌/◌, ◌&&◌, not, List, [], ◌∷◌, Option, none, some, ltb, leb, ◌==◌, if◌then◌else◌,
  ◌=?◌, nat_eq, list_eq, length, take,
}
use bbs.Text.{Text, upper, codes}
use bbs.Dict.{get, has, put}
use bbs.Ax25.NetromFrame.Wire.{Bytes}
use bbs.Ax25.NetromFrame.Nodes.{NodeEntry, NodesFrame, decode_nodes_broadcast}
use bbs.Netrom.Router.{
  RouteEntry, NetromRouter, NeighbourEntry, max_routes_per_dest, is_routable_callsign,
  get_or_create_neighbour,
}

unfoldable pub route_quality : ℕ → ℕ → ℕ
route_quality advertised path_quality = (advertised * path_quality + 128) / 256

-- The entries whose destination is a callsign.
unfoldable pub routable_entries : List NodeEntry → List NodeEntry
unfolding is_routable_callsign
routable_entries [] = []
routable_entries (e ∷ es) =
    let rest = routable_entries es in if is_routable_callsign e.dest_call then e ∷ rest else rest

unfoldable pub sanitize_entries : NodesFrame → NodesFrame
unfolding routable_entries
sanitize_entries frame = record frame { entries = routable_entries frame.entries }

-- The entry in the place of the route through the same neighbour, or at the end.
unfoldable pub place : RouteEntry → List RouteEntry → List RouteEntry
place e [] = e ∷ []
place e (r ∷ b) =
    let rest = place e b in if upper r.via_call =? upper e.via_call then e ∷ b else r ∷ rest

-- list.sort by quality, descending: equal qualities keep their order.
unfoldable pub insert_by_quality : RouteEntry → List RouteEntry → List RouteEntry
insert_by_quality r [] = r ∷ []
insert_by_quality r (s ∷ b) =
    let rest = insert_by_quality r b in if leb s.quality r.quality then r ∷ s ∷ b else s ∷ rest

unfoldable pub sort_by_quality : List RouteEntry → List RouteEntry
sort_by_quality [] = []
sort_by_quality (r ∷ b) = insert_by_quality r (sort_by_quality b)

unfoldable pub upsert_bucket : RouteEntry → List RouteEntry → List RouteEntry
upsert_bucket e b = take max_routes_per_dest (sort_by_quality (place e b))

abbrev pub bucket_of : Option (List RouteEntry) → List RouteEntry
bucket_of none = []
bucket_of (some b) = b

unfoldable pub upsert_route : RouteEntry → NetromRouter → NetromRouter
upsert_route e g =
    let key = upper e.dest_call in
    record g { routes = put g.routes key (upsert_bucket e (bucket_of (get g.routes key))) }

unfoldable pub entry_quality : NodeEntry → ℕ → NetromRouter → ℕ
entry_quality e path_q g =
    if upper e.neighbor_call =? g.call then 0 else route_quality e.quality path_q

-- The route to an advertised destination through the source of the broadcast.
abbrev pub indirect_route : NodesFrame → ℕ → ℕ → NetromRouter → NodeEntry → RouteEntry
indirect_route frame now path_q g e = record {
  dest_call = e.dest_call;
  alias = e.alias;
  neighbor_call = e.neighbor_call;
  quality = entry_quality e path_q g;
  via_call = frame.source_call;
  via_alias = frame.source_alias;
  last_seen = now;
  obs_count = g.obs_initializer;
}

-- One round of the loop over the entries: rules 5, 6, 8 and 9.
unfoldable pub process_entry : NodesFrame → ℕ → ℕ → NodeEntry → NetromRouter → NetromRouter
process_entry frame now path_q e g =
    if ltb (entry_quality e path_q g) g.worst_quality
    then g
    else if not (has g.routes (upper e.dest_call)) && leb g.max_destinations (length g.routes)
    then g
    else upsert_route (indirect_route frame now path_q g e) g

unfoldable pub process_entries : NodesFrame → ℕ → ℕ → List NodeEntry → NetromRouter → NetromRouter
process_entries frame now path_q [] g = g
process_entries frame now path_q (e ∷ es) g =
    process_entries frame now path_q es (process_entry frame now path_q e g)

-- Rule 4: the route to the source itself, at the quality of the link.
abbrev pub source_route : NodesFrame → ℕ → ℕ → NetromRouter → RouteEntry
source_route frame now path_q g = record {
  dest_call = frame.source_call;
  alias = frame.source_alias;
  neighbor_call = frame.source_call;
  quality = path_q;
  via_call = frame.source_call;
  via_alias = frame.source_alias;
  last_seen = now;
  obs_count = g.obs_initializer;
}

abbrev pub learn : NodesFrame → ℕ → NeighbourEntry × NetromRouter → NetromRouter
learn frame now (nbr, g) =
    if nbr.path_quality == 0
    then g
    else process_entries frame now nbr.path_quality frame.entries
        (upsert_route (source_route frame now nbr.path_quality g) g)

unfoldable pub process_nodes : NodesFrame → ℕ → NetromRouter → NetromRouter
process_nodes frame now g =
    if g.worst_quality == 0
    then g
    else learn frame now (get_or_create_neighbour frame.source_call now g)

abbrev on_decoded : ℕ → NetromRouter → Option NodesFrame → NetromRouter
on_decoded now g none = g
on_decoded now g (some frame) = process_nodes (sanitize_entries frame) now g

-- The observer and the database, which the source calls next, do not change the router.
unfoldable pub on_netrom_frame : Text → Text → Bytes → ℕ → NetromRouter → NetromRouter
on_netrom_frame src_call dest_call payload now g =
    if upper dest_call =? codes "NODES"
    then on_decoded now g (decode_nodes_broadcast src_call payload)
    else g
