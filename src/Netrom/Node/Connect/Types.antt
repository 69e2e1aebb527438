-- ===== src/Netrom/Node/Connect/Types.antt =====
-- The state of a node session of bbs/netrom/node.py, what the user is told, and the outcomes of what
-- a CONNECT awaits.
use bbs.Prelude.{ℕ, Bool, List, [], ◌∷◌, ◌++◌, Option}
use bbs.Text.{Text}
use bbs.Core.Auth.{AuthLevel}
use bbs.Netrom.Gateway.{GatewayGuard, Reason}

-- connect_netrom: a ConnectionError or a timeout, another exception, no manager, or a manager.
pub data Crosslink : Type 0 where
  link_failed link_raised no_manager manager : Crosslink

-- originate_circuit: its exceptions, a cancellation, or a circuit.
pub data Origin : Type 0 where
  timed_out refused failed origin_cancelled answered : Origin

-- The bridge: which side closed first, or a cancellation.
pub data Bridge : Type 0 where
  near_closed far_closed bridge_cancelled : Bridge

-- A local application: its end, with the user still there or not, an exception, a cancellation.
pub data App : Type 0 where
  app_ended user_gone app_failed app_cancelled : App

pub record Outcomes : Type 0 where
  pub link : Crosslink
  pub origin : Origin
  pub bridge : Bridge
  pub app : App

-- What the user is told.
pub data Message : Type 0 where
  usage not_authorized_out this_node no_transport busy : Message
  unknown_node no_route link_failed_to did_not_answer refused_by could_not_connect : Text → Message
  connected_to reconnected_to not_available : Text → Message
  refused_for : Reason → Message
  connecting : Text → Text → Text → Message

-- The settings of a node session; `transports` tells which of them carry crosslinks.
pub record NodeConfig : Type 0 where
  pub user_call : Text
  pub node_call : Text
  pub node_alias : Text
  pub apps : List Text
  pub transports : List Bool
  pub may_connect : Bool
  pub min_quality : ℕ
  pub auth_level : Option AuthLevel
  pub arrival_via : Text
  pub reconnect : Bool

-- The circuits that were asked for: neighbour, destination and user.
pub record NodeState : Type 0 where
  pub guard : GatewayGuard
  pub active_gateways : ℕ
  pub current_target : Option Text
  pub running : Bool
  pub sent : List Message
  pub originated : List (Text × (Text × Text))

-- The state behind a handler, and whether it raised.
abbrev pub NodeResult : Type 0
NodeResult = NodeState × Bool

abbrev pub tell : Message → NodeState → NodeState
tell m s = record s { sent = s.sent ++ m ∷ [] }
