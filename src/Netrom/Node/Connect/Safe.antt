-- ===== src/Netrom/Node/Connect/Safe.antt =====
-- The command CONNECT as a whole.
use bbs.Prelude.{
  ℕ, Bool, true, false, not, ◌≡◌, ◌≢◌, refl, sym, ◌∙◌, Option, none, some, arith, length, ◌=?◌,
  nat_eq, list_eq, list_beq_iff, ◌==◌, Bool-cases, inl, inr, true_ne_false, if◌then◌else◌,
}
use bbs.Text.{Text, upper}
use bbs.Netrom.Router.{NetromRouter, RouteEntry}
use bbs.Netrom.Router.Lookup.{get_route, best_neighbor_for}
use bbs.Netrom.Gateway.{check}
use bbs.Netrom.Gateway.Gates.{passed-IsPermitted}
use bbs.Netrom.Node.Connect.{
  Outcomes, App, app_ended, user_gone, app_failed, app_cancelled, NodeConfig, NodeState,
  cmd_connect, gate, forward, onward, run_local_app, attempt_of, has_crosslink, is_app, first_word,
  alias_or, tell, no_transport, no_route, this_node, unknown_node, usage, not_authorized_out,
  reconnected_to, not_available,
}
use bbs.Netrom.Node.Connect.Accounts.{SameAccounts-refl, check-SameAccounts}
use bbs.Netrom.Node.Connect.Released.{
  IsGranted, IsReleased, AsksFor, IsSafe, quiet, tell-IsSafe, gate-IsSafe, if-IsSafe,
}

run_local_app-IsSafe :
    (granted : Text → Text → Type 0) (cfg : NodeConfig) (name : Text) (app : App) (s : NodeState)
    → IsSafe granted cfg.user_call s (run_local_app cfg name app s).0
run_local_app-IsSafe granted cfg name app_ended s = elim (Bool-cases cfg.reconnect) [
  | inl e ↦ rw e (tell-IsSafe granted cfg.user_call s (reconnected_to cfg.node_alias))
  | inr e ↦ rw e (quiet granted cfg.user_call s s (SameAccounts-refl s.guard) refl refl refl)
]
run_local_app-IsSafe granted cfg name user_gone s =
    quiet granted cfg.user_call s (record s { running = false }) (SameAccounts-refl s.guard) refl
      refl refl
run_local_app-IsSafe granted cfg name app_failed s =
    tell-IsSafe granted cfg.user_call s (not_available name)
run_local_app-IsSafe granted cfg name app_cancelled s =
    quiet granted cfg.user_call s s (SameAccounts-refl s.guard) refl refl refl

module _ (now clock : ℕ) (cfg : NodeConfig) (router : NetromRouter) (target : Text) (o : Outcomes)
    (s : NodeState) (allowed : cfg.may_connect ≡ true) where
  abbrev GrantedNow : Text → Text → Type 0
  GrantedNow = IsGranted now clock cfg router target s.guard

  forward-IsSafe :
      (alias dest : Text) (next : Option Text)
      → ((r : RouteEntry) × (get_route target router ≡ some r) × (dest ≡ upper r.dest_call))
      → dest ≢ cfg.node_call
      → best_neighbor_for target cfg.min_quality now router ≡ next
      → IsSafe GrantedNow cfg.user_call s (forward clock cfg alias dest o next s).0
  forward-IsSafe alias dest none route elsewhere hop =
      tell-IsSafe GrantedNow cfg.user_call s (no_route dest)
  forward-IsSafe alias dest (some neighbor) route elsewhere hop =
      let a = attempt_of cfg dest neighbor in
      if-IsSafe GrantedNow cfg.user_call s (has_crosslink cfg.transports)
        (gate clock cfg alias dest neighbor o (check clock a s.guard) s)
        (tell no_transport s, false)
        (λ crosslink.
          gate-IsSafe GrantedNow clock cfg alias dest neighbor o s (check clock a s.guard).1
            (check clock a s.guard).0 (check-SameAccounts clock a s.guard)
            (λ passed slot. record {
              allowed = allowed;
              route = route;
              elsewhere = elsewhere;
              next_hop = hop;
              crosslink = crosslink;
              permitted = passed-IsPermitted clock a s.guard passed;
              slot = slot;
            }))
        (λ _. tell-IsSafe GrantedNow cfg.user_call s no_transport)

  onward-IsSafe :
      (found : Option RouteEntry)
      → get_route target router ≡ found
      → IsSafe GrantedNow cfg.user_call s (onward now clock cfg router target o found s).0
  onward-IsSafe none h = tell-IsSafe GrantedNow cfg.user_call s (unknown_node (upper target))
  onward-IsSafe (some r) h =
      let dest : Text = upper r.dest_call in
      let next : Option Text = best_neighbor_for target cfg.min_quality now router in
      let alias : Text = upper (alias_or r.alias dest) in
      if-IsSafe GrantedNow cfg.user_call s (dest =? cfg.node_call) (tell this_node s, false)
        (forward clock cfg alias dest o next s)
        (λ _. tell-IsSafe GrantedNow cfg.user_call s this_node)
        (λ other.
          forward-IsSafe alias dest next (r, h, refl)
            (λ e. true_ne_false (sym ((list_beq_iff dest cfg.node_call).1 e) ∙ other)) refl)

-- Whatever the link, the far node, the bridge and the application do, a CONNECT leaves the guard's
-- circuits in use as it found them, and asks the network for no circuit, or for one that is granted:
-- connecting out is allowed, and it goes to another node on a known route, through the chosen next hop, permitted by the guard, and with
-- a slot reserved.
pub cmd_connect-IsSafe :
    (now clock : ℕ) (cfg : NodeConfig) (router : NetromRouter) (arg : Text) (o : Outcomes)
    (s : NodeState)
    → IsReleased s (cmd_connect now clock cfg router arg o s).0
      × AsksFor
          (IsGranted now clock cfg router (first_word arg) s.guard)
          cfg.user_call
          s
          (cmd_connect now clock cfg router arg o s).0
unfolding cmd_connect
cmd_connect-IsSafe now clock cfg router arg o s =
    let target : Text = first_word arg in
    let granted : Text → Text → Type 0 = IsGranted now clock cfg router target s.guard in
    let user : Text = cfg.user_call in
    let name : Text = upper target in
    let out : NodeState × Bool = onward now clock cfg router target o (get_route target router) s in
    let denied : NodeState × Bool = (tell not_authorized_out s, false) in
    let local : NodeState × Bool = run_local_app cfg name o.app s in
    let asked : NodeState × Bool = if not cfg.may_connect then denied else out in
    if-IsSafe granted user s (length target == 0) (tell usage s, false)
      (if is_app cfg.apps name then local else asked) (λ _. tell-IsSafe granted user s usage)
      (λ _.
        if-IsSafe granted user s (is_app cfg.apps name) local asked
          (λ _. run_local_app-IsSafe granted cfg name o.app s)
          (λ _.
            if-IsSafe granted user s (not cfg.may_connect) denied out
              (λ _. tell-IsSafe granted user s not_authorized_out)
              (λ e.
                onward-IsSafe now clock cfg router target o s (ground (arith, e))
                  (get_route target router) refl)))
