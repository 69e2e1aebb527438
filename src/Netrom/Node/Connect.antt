-- ===== src/Netrom/Node/Connect.antt =====
-- The command CONNECT of bbs/netrom/node.py. What the link, the far node, the bridge and a local
-- application do is an argument, `Outcomes`; writes to the user's terminal are taken to succeed.
pub mod Accounts
pub mod Released
pub mod Safe
mod Types
pub use Types.*
use bbs.Prelude.{
  ℕ, ◌+◌, ◌-◌, Bool, true, false, not, List, [], ◌∷◌, ◌++◌, Option, none, some, if◌then◌else◌,
  length, ◌=?◌, nat_eq, list_eq, ◌==◌,
}
use bbs.Text.{Text, codes, upper, strip, lstrip, span_word}
use bbs.Core.Auth.{AuthLevel, anonymous, identified, authenticated, sysop}
use bbs.Netrom.Router.{NetromRouter, RouteEntry}
use bbs.Netrom.Router.Lookup.{get_route, best_neighbor_for}
use bbs.Netrom.Gateway.{
  GatewayGuard, Attempt, Reason, access_denied, not_authorized, rate_limit, interlocked,
  auth_required, check, acquire, release, note_refusal,
}

-- arg.strip().split()[0], or the empty text
unfoldable pub first_word : Text → Text
unfolding lstrip span_word
first_word arg = (span_word (lstrip arg)).0

abbrev pub is_app : List Text → Text → Bool
is_app [] name = false
is_app (a ∷ apps) name = if upper a =? name then true else is_app apps name

abbrev pub has_crosslink : List Bool → Bool
has_crosslink [] = false
has_crosslink (t ∷ ts) = if t then true else has_crosslink ts

-- The end of a session with a far node or an application.
abbrev pub resume : NodeConfig → NodeState → NodeState
resume cfg s = if cfg.reconnect then tell (reconnected_to cfg.node_alias) s else s

abbrev pub run_local_app : NodeConfig → Text → App → NodeState → NodeResult
run_local_app cfg name app_ended s = (resume cfg s, false)
run_local_app cfg name user_gone s = (record s { running = false }, false)
run_local_app cfg name app_failed s = (tell (not_available name) s, false)
run_local_app cfg name app_cancelled s = (s, true)

-- route.alias or dest_call
abbrev pub alias_or : Text → Text → Text
alias_or [] dest = dest
alias_or (c ∷ s) dest = c ∷ s

abbrev pub level_name : AuthLevel → Text
level_name anonymous = codes "anonymous"
level_name identified = codes "identified"
level_name authenticated = codes "authenticated"
level_name sysop = codes "sysop"

abbrev pub reason_text : Reason → Text
reason_text access_denied = codes "Access denied."
reason_text not_authorized = codes "Not authorized to use this gateway."
reason_text (auth_required level) =
    codes "Authentication required (" ++ level_name level ++ codes ")."
reason_text rate_limit = codes "Rate limit — try again shortly."
reason_text interlocked = codes "Interlock: won't route back the way you came."

-- The slot is taken, and freed by the `finally`.
abbrev pub occupy : Text → GatewayGuard → NodeState → NodeState
occupy alias guard s = record s {
  guard = guard;
  active_gateways = s.active_gateways + 1;
  current_target = some alias;
}

unfoldable pub vacate : NodeConfig → NodeState → NodeState
vacate cfg s = record s {
  guard = release cfg.user_call s.guard;
  active_gateways = s.active_gateways - 1;
  current_target = none;
}

-- What the body of the `try` comes to: a return, an exception, or the value of the bridge.
pub data Ended : Type 0 where
  returned raised : Ended
  bridged : Bool → Ended

abbrev pub bridge_of : Bridge → Ended
bridge_of near_closed = bridged true
bridge_of far_closed = bridged false
bridge_of bridge_cancelled = raised

abbrev pub ask : Text → Text → Text → NodeState → NodeState
ask neighbor dest user s = record s { originated = s.originated ++ (neighbor, (dest, user)) ∷ [] }

abbrev pub originate : Text → Origin → Bridge → NodeState → NodeState × Ended
originate alias timed_out b s = (tell (did_not_answer alias) s, returned)
originate alias refused b s = (tell (refused_by alias) s, returned)
originate alias failed b s = (tell (could_not_connect alias) s, returned)
originate alias origin_cancelled b s = (s, raised)
originate alias answered b s = (tell (connected_to alias) s, bridge_of b)

abbrev pub open_crosslink :
    NodeConfig → Text → Text → Text → Outcomes → Crosslink → NodeState → NodeState × Ended
open_crosslink cfg alias dest neighbor o link_failed s =
    (tell (link_failed_to neighbor) s, returned)
open_crosslink cfg alias dest neighbor o link_raised s = (s, raised)
open_crosslink cfg alias dest neighbor o no_manager s = (tell no_transport s, returned)
open_crosslink cfg alias dest neighbor o manager s =
    originate alias o.origin o.bridge (ask neighbor dest cfg.user_call s)

-- Behind the `finally`: the end of the node session, or the prompt again.
abbrev pub conclude : NodeConfig → NodeState × Ended → NodeResult
conclude cfg (s, returned) = (vacate cfg s, false)
conclude cfg (s, raised) = (vacate cfg s, true)
conclude cfg (s, bridged true) = (record (vacate cfg s) { running = false }, false)
conclude cfg (s, bridged false) = (resume cfg (vacate cfg s), false)

-- The connection once a slot is reserved.
unfoldable pub connect_held :
    NodeConfig → Text → Text → Text → Outcomes → GatewayGuard → NodeState → NodeResult
connect_held cfg alias dest neighbor o guard s = conclude cfg (
    open_crosslink cfg alias dest neighbor o o.link
      (tell (connecting alias dest neighbor) (occupy alias guard s)))

abbrev pub refuse_connect :
    ℕ → NodeConfig → Text → Text → Message → GatewayGuard → NodeState → NodeResult
refuse_connect clock cfg dest why message guard s =
    (tell message (record s { guard = note_refusal clock cfg.user_call why dest guard }), false)

abbrev pub reserve :
    ℕ → NodeConfig → Text → Text → Text → Outcomes → Bool × GatewayGuard → NodeState → NodeResult
reserve clock cfg alias dest neighbor o (false, guard) s =
    refuse_connect clock cfg dest (codes "Node busy — circuit cap") busy guard s
reserve clock cfg alias dest neighbor o (true, guard) s =
    connect_held cfg alias dest neighbor o guard s

abbrev pub gate :
    ℕ
    → NodeConfig
    → Text
    → Text
    → Text
    → Outcomes
    → Option Reason × GatewayGuard
    → NodeState
    → NodeResult
gate clock cfg alias dest neighbor o (some reason, guard) s =
    refuse_connect clock cfg dest (reason_text reason) (refused_for reason) guard s
gate clock cfg alias dest neighbor o (none, guard) s =
    reserve clock cfg alias dest neighbor o (acquire clock cfg.user_call guard) s

abbrev pub attempt_of : NodeConfig → Text → Text → Attempt
attempt_of cfg dest neighbor = record {
  user_call = cfg.user_call;
  auth_level = cfg.auth_level;
  dest_call = dest;
  neighbor = neighbor;
  arrival_via = cfg.arrival_via;
}

abbrev pub forward : ℕ → NodeConfig → Text → Text → Outcomes → Option Text → NodeState → NodeResult
forward clock cfg alias dest o none s = (tell (no_route dest) s, false)
forward clock cfg alias dest o (some neighbor) s =
    if has_crosslink cfg.transports
    then gate clock cfg alias dest neighbor o (check clock (attempt_of cfg dest neighbor) s.guard) s
    else (tell no_transport s, false)

-- `now` is the time of the router, `clock` that of the guard.
abbrev pub onward :
    ℕ → ℕ → NodeConfig → NetromRouter → Text → Outcomes → Option RouteEntry → NodeState → NodeResult
onward now clock cfg router target o none s = (tell (unknown_node (upper target)) s, false)
onward now clock cfg router target o (some route) s =
    let dest = upper route.dest_call in
    let next = best_neighbor_for target cfg.min_quality now router in
    if dest =? cfg.node_call
    then (tell this_node s, false)
    else forward clock cfg (upper (alias_or route.alias dest)) dest o next s

unfoldable pub cmd_connect :
    ℕ → ℕ → NodeConfig → NetromRouter → Text → Outcomes → NodeState → NodeResult
cmd_connect now clock cfg router arg o s =
    let target = first_word arg in
    if length target == 0
    then (tell usage s, false)
    else if is_app cfg.apps (upper target)
    then run_local_app cfg (upper target) o.app s
    else if not cfg.may_connect
    then (tell not_authorized_out s, false)
    else onward now clock cfg router target o (get_route target router) s
