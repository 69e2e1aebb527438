-- ===== src/Netrom/Router/Tests.antt =====
-- Runs of the router.
use bbs.Prelude.{List, ◌≡◌, ◌≤◌, refl, true, false, [], ◌∷◌, some, arith, length, nat_eq, list_eq}
use bbs.Text.{Text, codes, strip, rstrip, lstrip}
use bbs.Dict.{get, put, has}
use bbs.Ax25.NetromFrame.Nodes.{NodeEntry, NodesFrame}
use bbs.Netrom.Router.{
  RouteEntry, NeighbourEntry, NetromRouter, get_or_create_neighbour, heard_neighbour,
  default_path_quality, is_routable_callsign,
}
use bbs.Netrom.Router.Table.{
  route_quality, process_nodes, process_entries, process_entry, entry_quality, upsert_route,
  upsert_bucket, place, sort_by_quality, insert_by_quality,
}
use bbs.Dict.Totals.{Distinct}
use bbs.Text.{decimal}
use bbs.Ax25.NetromFrame.Wire.{Bytes, show_call}
use bbs.Ax25.NetromFrame.WireLaws.{IsWireCall}
use bbs.Ax25.NetromFrame.NodesLaws.{AllEntries}
use bbs.Netrom.Router.Aging.{decay_obsolescence, reconcile_neighbours}
use bbs.Netrom.Router.Broadcast.{
  nodes_entries, best_entries, is_stale, sort_by_dest, insert_by_dest, text_leb,
  build_nodes_payloads,
}
use bbs.Netrom.Router.Fragments.{collected, AllFit, build_nodes_payloads-collected}
use bbs.Netrom.Router.Neighbours.{uses, reconciled, reconcile_neighbours_lem}
use bbs.Netrom.Router.Lookup.{
  best_neighbor_for, get_routes, is_direct_neighbor, usable_routes, first_reachable, is_known_node,
  any_route_via, any_via, has_fresh_direct_route, any_fresh_direct,
}
use bbs.Netrom.Router.Buckets.{IsWellFormed}
use bbs.Netrom.Router.Rules.{process_nodes-IsWellFormed, process_nodes-length}
use bbs.Netrom.Router.Expiry.{decay_obsolescence-IsWellFormed, scans, scans_empty}
use bbs.Netrom.Router.NextHop.{IsNextHop, best_neighbor_for-IsNextHop}

abbrev node : Text
node = codes "KI6ZHD-5"

abbrev far : Text
far = codes "K6FB-5"

abbrev start : NetromRouter
start = record {
  call = codes "W6ELA-1";
  alias = codes "BBS";
  routes = [];
  neighbours = [];
  channel_quality = 192;
  neighbour_quality = [];
  worst_quality = 1;
  max_destinations = 2;
  obs_initializer = 6;
  obs_min_to_broadcast = 5;
  heard_direct = [];
  crosslinks = [];
  direct_heard_ttl = 3600000;
  route_ttl = 10800000;
  advertise_self_only = true;
}

-- A destination behind the source, and a loop through the node itself.
abbrev frame : NodesFrame
frame = record {
  source_call = node;
  source_alias = codes "SCLARA";
  entries =
      (record { dest_call = far; alias = codes "LOMA"; neighbor_call = far; quality = 200 })
      ∷ (record {
        dest_call = codes "N6ZZ";
        alias = [];
        neighbor_call = codes "W6ELA-1";
        quality = 255;
      })
      ∷ [];
}

start-IsWellFormed : IsWellFormed start
start-IsWellFormed = record { distinct = tt; buckets = tt }

process_nodes-IsWellFormed_example : IsWellFormed (process_nodes frame 1000 start)
process_nodes-IsWellFormed_example = process_nodes-IsWellFormed frame 1000 start start-IsWellFormed

decay_obsolescence-IsWellFormed_example :
    IsWellFormed (decay_obsolescence (process_nodes frame 1000 start)).1
decay_obsolescence-IsWellFormed_example =
    decay_obsolescence-IsWellFormed (process_nodes frame 1000 start)
      process_nodes-IsWellFormed_example

process_nodes-length_example : length (process_nodes frame 1000 start).routes ≤ 2
process_nodes-length_example = process_nodes-length frame 1000 start 2 (omega arith) (omega arith)

-- The route to the far node is composed: (200 * 192 + 128) / 256. The loop is dropped.
abbrev direct_route : RouteEntry
direct_route = record {
  dest_call = node;
  alias = codes "SCLARA";
  neighbor_call = node;
  quality = 192;
  via_call = node;
  via_alias = codes "SCLARA";
  last_seen = 1000;
  obs_count = 6;
}

abbrev far_route : RouteEntry
far_route = record {
  dest_call = far;
  alias = codes "LOMA";
  neighbor_call = far;
  quality = 150;
  via_call = node;
  via_alias = codes "SCLARA";
  last_seen = 1000;
  obs_count = 6;
}

abbrev learned : NetromRouter
learned = record start {
  routes = (node, direct_route ∷ []) ∷ (far, far_route ∷ []) ∷ [];
  neighbours =
      (
        node,
        record {
          call = node;
          port = [];
          path_quality = 192;
          use_count = 0;
          locked = false;
          crosslink = false;
          last_heard = 1000;
        },
      )
      ∷ [];
}

process_nodes_run : process_nodes frame 1000 start ≡ learned
unfolding process_nodes process_entries process_entry entry_quality route_quality upsert_route
    upsert_bucket place sort_by_quality insert_by_quality get_or_create_neighbour heard_neighbour
    default_path_quality get put has
process_nodes_run = refl

next_hop_run : best_neighbor_for far 1 5000000 learned ≡ some node
unfolding best_neighbor_for get_routes is_direct_neighbor usable_routes first_reachable
    is_known_node any_route_via any_via has_fresh_direct_route any_fresh_direct is_routable_callsign
    bbs.Netrom.Router.is_direct get has strip rstrip lstrip
next_hop_run = refl

best_neighbor_for-IsNextHop_example : IsNextHop far 1 5000000 learned node
best_neighbor_for-IsNextHop_example =
    best_neighbor_for-IsNextHop far 1 5000000 learned node next_hop_run

learned-IsWellFormed : IsWellFormed learned
learned-IsWellFormed = rw (← process_nodes_run) process_nodes-IsWellFormed_example

scans_empty_example : (scans 6 learned).routes ≡ []
scans_empty_example = scans_empty 6 learned (omega arith) learned-IsWellFormed (ground arith)

learned_neighbours : Distinct learned.neighbours
unfolding has
learned_neighbours = (refl, tt)

reconcile_neighbours_lem_example :
    get (reconcile_neighbours learned).neighbours node
    ≡ reconciled
        (uses node learned.routes)
        (has learned.crosslinks node)
        (get learned.neighbours node)
reconcile_neighbours_lem_example = reconcile_neighbours_lem learned node learned_neighbours

abbrev transit : NetromRouter
transit = record learned { advertise_self_only = false; obs_min_to_broadcast = 5 }

abbrev advertised_entries : List NodeEntry
advertised_entries =
    (record { dest_call = far; alias = codes "LOMA"; neighbor_call = node; quality = 150 })
    ∷ (record { dest_call = node; alias = codes "SCLARA"; neighbor_call = node; quality = 192 })
    ∷ []

transit_entries : nodes_entries transit ≡ advertised_entries
unfolding nodes_entries best_entries is_stale sort_by_dest insert_by_dest text_leb
transit_entries = refl

far-IsWireCall : IsWireCall far
unfolding show_call decimal
far-IsWireCall = record {
  call = codes "K6FB";
  ssid = 5;
  chars = (refl, (refl, (refl, (refl, tt))));
  short = omega arith;
  ssid_range = omega arith;
  shown = refl;
}

node-IsWireCall : IsWireCall node
unfolding show_call decimal
node-IsWireCall = record {
  call = codes "KI6ZHD";
  ssid = 5;
  chars = (refl, (refl, (refl, (refl, (refl, (refl, tt))))));
  short = omega arith;
  ssid_range = omega arith;
  shown = refl;
}

advertised-AllEntries : AllEntries advertised_entries
advertised-AllEntries = (
  record {
    dest = far-IsWireCall;
    nonempty = omega arith;
    alias = record { chars = ground arith; short = omega arith };
    neighbor = node-IsWireCall;
    quality = omega arith;
  },
  (
    record {
      dest = node-IsWireCall;
      nonempty = omega arith;
      alias = record { chars = ground arith; short = omega arith };
      neighbor = node-IsWireCall;
      quality = omega arith;
    },
    tt,
  ),
)

build_nodes_payloads-collected_example :
    (ps : List Bytes) × (build_nodes_payloads transit ≡ some ps)
    × (collected node ps ≡ nodes_entries transit)
    × AllFit ps
build_nodes_payloads-collected_example =
    build_nodes_payloads-collected node transit
      (record { chars = ground arith; short = omega arith })
      (rw transit_entries advertised-AllEntries) refl
