-- ===== src/Netrom/Router/Broadcast.antt =====
-- bbs/netrom/router.py: the NODES broadcast of the node, in one frame or in fragments.
use bbs.Prelude.{
  ℕ, zero, suc, Bool, true, false, ◌&&◌, ◌||◌, not, List, [], ◌∷◌, Option, none, some, ltb, ◌==◌,
  if◌then◌else◌, length, take, drop, ◌>>=◌,
}
use bbs.Text.{Text, upper}
use bbs.Dict.{Dict}
use bbs.Ax25.NetromFrame.Wire.{Bytes}
use bbs.Ax25.NetromFrame.Nodes.{NodeEntry, encode_nodes_broadcast}
use bbs.Netrom.Router.{RouteEntry, NetromRouter}

-- a <= b for texts
unfoldable pub text_leb : Text → Text → Bool
text_leb [] t = true
text_leb (c ∷ s) [] = false
text_leb (c ∷ s) (d ∷ t) = ltb c d || (c == d && text_leb s t)

unfoldable pub is_stale : NetromRouter → RouteEntry → Bool
is_stale g r = not (r.obs_count == 0) && ltb r.obs_count g.obs_min_to_broadcast

abbrev pub advertised : RouteEntry → NodeEntry
advertised r = record {
  dest_call = r.dest_call;
  alias = r.alias;
  neighbor_call = r.via_call;
  quality = r.quality;
}

unfoldable pub best_entries : NetromRouter → Dict Text (List RouteEntry) → List NodeEntry
best_entries g [] = []
best_entries g ((key, []) ∷ d) = best_entries g d
best_entries g ((key, r ∷ b) ∷ d) =
    let rest = best_entries g d in if is_stale g r then rest else advertised r ∷ rest

unfoldable pub insert_by_dest : NodeEntry → List NodeEntry → List NodeEntry
insert_by_dest e [] = e ∷ []
insert_by_dest e (f ∷ es) =
    let rest = insert_by_dest e es in
    if text_leb (upper e.dest_call) (upper f.dest_call) then e ∷ f ∷ es else f ∷ rest

unfoldable pub sort_by_dest : List NodeEntry → List NodeEntry
sort_by_dest [] = []
sort_by_dest (e ∷ es) = insert_by_dest e (sort_by_dest es)

unfoldable pub nodes_entries : NetromRouter → List NodeEntry
nodes_entries g = sort_by_dest (best_entries g g.routes)

abbrev pub max_entries_per_frame : ℕ
max_entries_per_frame = 11

-- entries[i:i + step] for i in range(0, len(entries), step); each round takes `step` off, and the
-- fuel counts rounds.
unfoldable pub chunks : ℕ → List NodeEntry → List (List NodeEntry)
chunks zero es = []
chunks (suc fuel) [] = []
chunks (suc fuel) (e ∷ es) =
    take max_entries_per_frame (e ∷ es) ∷ chunks fuel (drop max_entries_per_frame (e ∷ es))

unfoldable pub encode_all : Text → List (List NodeEntry) → Option (List Bytes)
encode_all alias [] = some []
encode_all alias (es ∷ more) = do
  payload ← encode_nodes_broadcast alias es
  rest ← encode_all alias more
  some (payload ∷ rest)

-- The inner option is the source's `None`, the outer one an exception of the encoder.
abbrev single : Text → List NodeEntry → Option (Option Bytes)
single alias [] = some none
single alias (e ∷ es) = do payload ← encode_nodes_broadcast alias (e ∷ es); some (some payload)

unfoldable pub build_nodes_payload : NetromRouter → Option (Option Bytes)
build_nodes_payload g =
    if g.advertise_self_only
    then encode_nodes_broadcast g.alias [] >>= (λ payload. some (some payload))
    else single g.alias (nodes_entries g)

unfoldable pub build_nodes_payloads : NetromRouter → Option (List Bytes)
build_nodes_payloads g =
    let entries = nodes_entries g in
    if g.advertise_self_only
    then encode_all g.alias ([] ∷ [])
    else encode_all g.alias (chunks (length entries) entries)
