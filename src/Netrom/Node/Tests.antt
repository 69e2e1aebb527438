-- ===== src/Netrom/Node/Tests.antt =====
-- Runs of the node.
use bbs.Prelude.{true, ◌≡◌, refl, List, [], ◌∷◌, ◌++◌, none, arith}
use bbs.Text.{codes}
use bbs.Core.Auth.{identified}
use bbs.Netrom.Router.{NetromRouter}
use bbs.Netrom.Gateway.{GatewayGuard}
use bbs.Netrom.Node.Relay.{Bytes, to_far, a_to_b}
use bbs.Netrom.Node.Relay.Lossless.{concat, a_to_b-lossless}
use bbs.Netrom.Node.Relay.Border.{a_to_b-border}
use bbs.Netrom.Node.Connect.{
  Outcomes, manager, answered, far_closed, app_ended, NodeConfig, NodeState, cmd_connect,
  first_word,
}
use bbs.Netrom.Node.Connect.Released.{IsReleased, IsGranted, AsksFor}
use bbs.Netrom.Node.Connect.Safe.{cmd_connect-IsSafe}

abbrev reads : List Bytes
reads = codes "N" ∷ (13 ∷ 10 ∷ []) ∷ codes "C LO" ∷ (codes "MA" ++ 13 ∷ []) ∷ codes "x" ∷ []

a_to_b-lossless_example : concat (a_to_b [] reads) ≡ to_far (concat reads)
a_to_b-lossless_example = a_to_b-lossless reads (
  omega arith,
  refl,
  (omega arith, refl, (omega arith, refl, (omega arith, refl, (omega arith, refl, tt)))),
)

a_to_b-border_example :
    (concat (a_to_b [] ((codes "N" ++ 13 ∷ 10 ∷ []) ∷ [])) ≡ codes "N" ++ 13 ∷ [])
    × (concat (a_to_b [] ((codes "N" ++ 13 ∷ []) ∷ (10 ∷ []) ∷ [])) ≡ codes "N" ++ 13 ∷ 13 ∷ [])
a_to_b-border_example = a_to_b-border (codes "N") (refl, tt)

abbrev router : NetromRouter
router = record {
  call = codes "W6ELA-1";
  alias = codes "BBS";
  routes =
      (
        codes "KI6ZHD-5",
        (record {
          dest_call = codes "KI6ZHD-5";
          alias = codes "SCLARA";
          neighbor_call = codes "KI6ZHD-5";
          quality = 192;
          via_call = codes "KI6ZHD-5";
          via_alias = [];
          last_seen = 1000;
          obs_count = 6;
        })
            ∷ [],
      )
      ∷ [];
  neighbours = [];
  channel_quality = 192;
  neighbour_quality = [];
  worst_quality = 1;
  max_destinations = 2;
  obs_initializer = 6;
  obs_min_to_broadcast = 5;
  heard_direct = [];
  crosslinks = [];
  direct_heard_ttl = 3600000;
  route_ttl = 10800000;
  advertise_self_only = true;
}

abbrev guard : GatewayGuard
guard = record {
  policy = record {
    min_auth = identified;
    allow = [];
    deny = [];
    interlock = true;
    rate_limit_per_min = 6;
    max_circuits_per_user = 2;
    max_circuits = 4;
  };
  rate = [];
  active_total = 0;
  active_per_user = [];
  refusals = [];
}

abbrev cfg : NodeConfig
cfg = record {
  user_call = codes "K6FB";
  node_call = codes "W6ELA-1";
  node_alias = codes "BBS";
  apps = [];
  transports = true ∷ [];
  may_connect = true;
  min_quality = 1;
  auth_level = none;
  arrival_via = [];
  reconnect = true;
}

abbrev prompt : NodeState
prompt = record {
  guard = guard;
  active_gateways = 0;
  current_target = none;
  running = true;
  sent = [];
  originated = [];
}

abbrev good : Outcomes
good = record { link = manager; origin = answered; bridge = far_closed; app = app_ended }

cmd_connect-IsSafe_example :
    IsReleased prompt (cmd_connect 2000 50 cfg router (codes "sclara") good prompt).0
    × AsksFor
        (IsGranted 2000 50 cfg router (first_word (codes "sclara")) guard)
        (codes "K6FB")
        prompt
        (cmd_connect 2000 50 cfg router (codes "sclara") good prompt).0
cmd_connect-IsSafe_example = cmd_connect-IsSafe 2000 50 cfg router (codes "sclara") good prompt
