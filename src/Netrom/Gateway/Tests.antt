-- ===== src/Netrom/Gateway/Tests.antt =====
-- Runs of the gateway guard.
use bbs.Prelude.{◌≡◌, ◌≤◌, refl, true, [], ◌∷◌, none, arith, ◌↔◌, nat_eq, list_eq}
use bbs.Text.{codes, strip, rstrip, lstrip, before_dash}
use bbs.Dict.{get, put}
use bbs.Dict.Totals.{get_or_zero}
use bbs.Core.Auth.{identified}
use bbs.Netrom.Gateway.{GatewayGuard, GatewayPolicy, Attempt, check, acquire, release, base, norm}
use bbs.Netrom.Gateway.Permitted.{IsPermitted, Ascending, times_of}
use bbs.Netrom.Gateway.Gates.{check-IsPermitted}
use bbs.Netrom.Gateway.Accounting.{IsBalanced, acquire-IsBalanced, release-IsBalanced}

abbrev policy : GatewayPolicy
policy = record {
  min_auth = identified;
  allow = [];
  deny = (codes "N0CALL", tt) ∷ [];
  interlock = true;
  rate_limit_per_min = 6;
  max_circuits_per_user = 2;
  max_circuits = 4;
}

abbrev idle : GatewayGuard
idle = record { policy = policy; rate = []; active_total = 0; active_per_user = []; refusals = [] }

abbrev attempt : Attempt
attempt = record {
  user_call = codes "w6ela-7";
  auth_level = none;
  dest_call = codes "KI6ZHD-5";
  neighbor = codes "K6FB-5";
  arrival_via = codes "W6ELA";
}

-- The caller has connected twice before.
abbrev busy : GatewayGuard
busy = record idle { rate = (codes "W6ELA", 30000 ∷ 90000 ∷ []) ∷ [] }

in_order : Ascending (times_of attempt busy)
unfolding get strip rstrip lstrip before_dash
in_order = ((omega arith, tt), (tt, tt))

check-IsPermitted_example : ((check 100000 attempt busy).0 ≡ none) ↔ IsPermitted 100000 attempt busy
check-IsPermitted_example = check-IsPermitted 100000 attempt busy in_order

idle-IsBalanced : IsBalanced idle
idle-IsBalanced = record {
  sum = refl;
  distinct = tt;
  node_cap = omega arith;
  user_cap = λ b. unfold get in omega arith;
}

acquire-IsBalanced_example : IsBalanced (acquire 5 (codes "W6ELA") idle).1
acquire-IsBalanced_example = acquire-IsBalanced 5 (codes "W6ELA") idle idle-IsBalanced

one_held :
    1
    ≤ get_or_zero (get (acquire 5 (codes "W6ELA") idle).1.active_per_user (base (codes "w6ela-3")))
unfolding acquire base get put norm strip rstrip lstrip before_dash
one_held = omega arith

release-IsBalanced_example :
    IsBalanced (release (codes "w6ela-3") (acquire 5 (codes "W6ELA") idle).1)
release-IsBalanced_example =
    release-IsBalanced (codes "w6ela-3") (acquire 5 (codes "W6ELA") idle).1 one_held
      acquire-IsBalanced_example
