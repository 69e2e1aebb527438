-- ===== src/Netrom/Router/Rules.antt =====
-- What a NODES broadcast may do to the routing table.
use bbs.Prelude.{
  ℕ, zero, suc, ◌*◌, ◌≤◌, ◌<◌, ◌≡◌, refl, List, [], ◌∷◌, nat_eq, list_eq, length, arith,
}
use bbs.Text.{Text, upper}
use bbs.Dict.{get}
use bbs.Dict.Laws.{length-put}
use bbs.Ax25.NetromFrame.Nodes.{NodeEntry, NodesFrame}
use bbs.Netrom.Router.{RouteEntry, NetromRouter, NeighbourEntry, get_or_create_neighbour}
use bbs.Netrom.Router.Table.{
  route_quality, process_entry, process_entries, process_nodes, upsert_route, upsert_bucket,
  bucket_of, indirect_route, source_route, learn,
}
use bbs.Netrom.Router.Buckets.{IsWellFormed, upsert_route-IsWellFormed}

mul_mono : (a b c : ℕ) → a ≤ b → a * c ≤ b * c
mul_mono a b zero h = omega arith
mul_mono a b (suc c) h = omega (arith, mul_mono a b c h)

-- The composed quality of two qualities of a byte is above neither of them.
pub route_quality_le :
    (advertised path : ℕ)
    → advertised < 256
    → path < 256
    → (route_quality advertised path ≤ advertised) × (route_quality advertised path ≤ path)
unfolding route_quality
route_quality_le advertised path ha hp = (
  omega (arith, mul_mono path 255 advertised (omega arith)),
  omega (arith, mul_mono advertised 255 path (omega arith)),
)

pub process_entry-IsWellFormed :
    (frame : NodesFrame) (now path_q : ℕ) (e : NodeEntry) (g : NetromRouter)
    → IsWellFormed g
    → IsWellFormed (process_entry frame now path_q e g)
unfolding process_entry
process_entry-IsWellFormed frame now path_q e g v =
    ground (arith, upsert_route-IsWellFormed (indirect_route frame now path_q g e) g v)

process_entries-IsWellFormed :
    (frame : NodesFrame) (now path_q : ℕ) (es : List NodeEntry) (g : NetromRouter)
    → IsWellFormed g
    → IsWellFormed (process_entries frame now path_q es g)
unfolding process_entries
process_entries-IsWellFormed frame now path_q [] g v = v
process_entries-IsWellFormed frame now path_q (e ∷ es) g v =
    process_entries-IsWellFormed frame now path_q es (process_entry frame now path_q e g)
      (process_entry-IsWellFormed frame now path_q e g v)

heard-IsWellFormed :
    (call : Text) (now : ℕ) (g : NetromRouter)
    → IsWellFormed g
    → IsWellFormed (get_or_create_neighbour call now g).1
unfolding get_or_create_neighbour
heard-IsWellFormed call now g v = record { distinct = v.distinct; buckets = v.buckets }

learn-IsWellFormed :
    (frame : NodesFrame) (now : ℕ) (n : NeighbourEntry) (g : NetromRouter)
    → IsWellFormed g
    → IsWellFormed (learn frame now (n, g))
learn-IsWellFormed frame now n g v =
    let r : RouteEntry = source_route frame now n.path_quality g in
    ground (
      arith,
      v,
      process_entries-IsWellFormed frame now n.path_quality frame.entries (upsert_route r g)
          (upsert_route-IsWellFormed r g v),
    )

-- A NODES broadcast keeps the routing table in shape.
pub process_nodes-IsWellFormed :
    (frame : NodesFrame) (now : ℕ) (g : NetromRouter)
    → IsWellFormed g
    → IsWellFormed (process_nodes frame now g)
unfolding process_nodes
process_nodes-IsWellFormed frame now g v =
    let h : NeighbourEntry × NetromRouter = get_or_create_neighbour frame.source_call now g in
    ground (
      arith,
      v,
      learn-IsWellFormed frame now h.0 h.1 (heard-IsWellFormed frame.source_call now g v),
    )

process_entry-length :
    (frame : NodesFrame) (now path_q : ℕ) (e : NodeEntry) (g : NetromRouter) (n : ℕ)
    → g.max_destinations ≤ n
    → length g.routes ≤ n
    → (length (process_entry frame now path_q e g).routes ≤ n)
      × ((process_entry frame now path_q e g).max_destinations ≤ n)
unfolding process_entry upsert_route
process_entry-length frame now path_q e g n cap le = ground (
  arith,
  length-put g.routes (upper e.dest_call) (
      upsert_bucket (indirect_route frame now path_q g e)
        (bucket_of (get g.routes (upper e.dest_call)))),
)

process_entries-length :
    (frame : NodesFrame) (now path_q : ℕ) (es : List NodeEntry) (g : NetromRouter) (n : ℕ)
    → g.max_destinations ≤ n
    → length g.routes ≤ n
    → length (process_entries frame now path_q es g).routes ≤ n
unfolding process_entries
process_entries-length frame now path_q [] g n cap le = le
process_entries-length frame now path_q (e ∷ es) g n cap le =
    let (shorter, cap') = process_entry-length frame now path_q e g n cap le in
    process_entries-length frame now path_q es (process_entry frame now path_q e g) n cap' shorter

source-length :
    (r : RouteEntry) (g : NetromRouter) → length (upsert_route r g).routes ≤ suc (length g.routes)
unfolding upsert_route
source-length r g = ground (
  arith,
  length-put g.routes (upper r.dest_call)
      (upsert_bucket r (bucket_of (get g.routes (upper r.dest_call)))),
)

upsert_route-cap :
    (r : RouteEntry) (g : NetromRouter) → (upsert_route r g).max_destinations ≡ g.max_destinations
unfolding upsert_route
upsert_route-cap r g = refl

learn-length :
    (frame : NodesFrame) (now : ℕ) (p : NeighbourEntry × NetromRouter) (n : ℕ)
    → p.1.max_destinations ≤ n
    → length p.1.routes < n
    → length (learn frame now p).routes ≤ n
learn-length frame now (nbr, g) n cap lt =
    let r : RouteEntry = source_route frame now nbr.path_quality g in
    ground (
      arith,
      lt,
      process_entries-length frame now nbr.path_quality frame.entries (upsert_route r g) n
          (omega (arith, cap, upsert_route-cap r g)) (omega (arith, lt, source-length r g)),
    )

-- For a bound that is at least the cap on destinations and above the number of destinations that
-- are known, a broadcast does not take the table past the bound: past the cap, only the source of
-- the broadcast can be added.
pub process_nodes-length :
    (frame : NodesFrame) (now : ℕ) (g : NetromRouter) (n : ℕ)
    → g.max_destinations ≤ n
    → length g.routes < n
    → length (process_nodes frame now g).routes ≤ n
unfolding process_nodes get_or_create_neighbour
process_nodes-length frame now g n cap lt =
    ground
      (arith, lt, learn-length frame now (get_or_create_neighbour frame.source_call now g) n cap lt)
