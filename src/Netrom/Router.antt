-- ===== src/Netrom/Router.antt =====
-- bbs/netrom/router.py, the NetromRouter: its entries, its state, its test of callsigns, and the
-- neighbour list. Times are whole milliseconds and the current one is an argument. The knobs
-- `hop_cost` and `min_advert_quality`, which the source keeps and never reads, are left out.
pub mod Table
pub mod Aging
pub mod Lookup
pub mod Broadcast
pub mod Buckets
pub mod Rules
pub mod Expiry
pub mod NextHop
pub mod Fragments
pub mod Neighbours
mod Tests
use bbs.Prelude.{
  ℕ, zero, suc, ◌+◌, Bool, true, false, ◌&&◌, ◌||◌, List, [], ◌∷◌, Option, none, some, ltb, leb,
  ◌==◌, if◌then◌else◌, Eq, ◌=?◌, nat_eq, list_eq, not,
}
use bbs.Text.{Text, upper, strip, is_digit, is_upper}
use bbs.Dict.{Dict, get, has, put, remove}
use bbs.Dict.Totals.{get_or_zero}

pub record RouteEntry : Type 0 where
  pub dest_call : Text
  pub alias : Text
  pub neighbor_call : Text
  pub quality : ℕ
  pub via_call : Text
  pub via_alias : Text
  pub last_seen : ℕ
  pub obs_count : ℕ

unfoldable pub is_direct : RouteEntry → Bool
is_direct r = upper r.via_call =? upper r.dest_call

pub record NeighbourEntry : Type 0 where
  pub call : Text
  pub port : Text
  pub path_quality : ℕ
  pub use_count : ℕ
  pub locked : Bool
  pub crosslink : Bool
  pub last_heard : ℕ

pub record NetromRouter : Type 0 where
  pub call : Text
  pub alias : Text
  pub routes : Dict Text (List RouteEntry)
  pub neighbours : Dict Text NeighbourEntry
  pub channel_quality : ℕ
  pub neighbour_quality : Dict Text ℕ
  pub worst_quality : ℕ
  pub max_destinations : ℕ
  pub obs_initializer : ℕ
  pub obs_min_to_broadcast : ℕ
  pub heard_direct : Dict Text ℕ
  pub crosslinks : Dict Text (Unit {0})
  pub direct_heard_ttl : ℕ
  pub route_ttl : ℕ
  pub advertise_self_only : Bool

abbrev pub max_routes_per_dest : ℕ
max_routes_per_dest = 3

-- The tail of `_CALLSIGN_RE`: the end, or a dash and a number up to 15.
abbrev is_ssid : Text → Bool
is_ssid (c ∷ []) = is_digit c
is_ssid (c ∷ d ∷ []) = c == 49 && (leb 48 d && leb d 53)
is_ssid _ = false

abbrev is_tail : Text → Bool
is_tail [] = true
is_tail (c ∷ s) = c == 45 && is_ssid s

-- [A-Z]{1,n} and the tail
abbrev is_suffix : ℕ → Text → Bool
is_suffix zero s = false
is_suffix (suc n) [] = false
is_suffix (suc n) (c ∷ s) = is_upper c && (is_tail s || is_suffix n s)

abbrev is_area : Text → Bool
is_area [] = false
is_area (c ∷ s) = is_digit c && is_suffix 4 s

abbrev is_alnum : ℕ → Bool
is_alnum c = is_upper c || is_digit c

abbrev is_second : Text → Bool
is_second [] = false
is_second (c ∷ s) = is_alnum c && is_area s

abbrev matches_callsign : Text → Bool
matches_callsign [] = false
matches_callsign (c ∷ s) = is_alnum c && (is_second s || is_area s)

unfoldable pub is_routable_callsign : Text → Bool
unfolding strip
is_routable_callsign call = matches_callsign (strip (upper call))

unfoldable pub note_heard_direct : Text → ℕ → NetromRouter → NetromRouter
note_heard_direct call when_ g = record g { heard_direct = put g.heard_direct (upper call) when_ }

abbrev or_else : Option ℕ → ℕ → ℕ
or_else none n = n
or_else (some m) n = m

unfoldable pub default_path_quality : Text → NetromRouter → ℕ
default_path_quality call g = or_else (get g.neighbour_quality (upper call)) g.channel_quality

-- A locked neighbour keeps its quality.
unfoldable pub heard_neighbour : Text → ℕ → NetromRouter → Option NeighbourEntry → NeighbourEntry
unfolding default_path_quality
heard_neighbour c now g none = record {
  call = c;
  port = [];
  path_quality = default_path_quality c g;
  use_count = 0;
  locked = false;
  crosslink = false;
  last_heard = now;
}
heard_neighbour c now g (some n) = record n {
  last_heard = now;
  path_quality = if n.locked then n.path_quality else default_path_quality c g;
}

-- The neighbour entry, and the router that holds it.
unfoldable pub get_or_create_neighbour : Text → ℕ → NetromRouter → NeighbourEntry × NetromRouter
unfolding heard_neighbour
get_or_create_neighbour call now g =
    let c = upper call in
    let n = heard_neighbour c now g (get g.neighbours c) in
    (n, record g { neighbours = put g.neighbours c n })
