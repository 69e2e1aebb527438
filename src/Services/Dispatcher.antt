-- ===== src/Services/Dispatcher.antt =====
-- bbs/services/dispatcher.py, the ServiceDispatcher. A route of the configuration is a `RouteSpec`,
-- whose strings and flags are those that the source reads with their defaults (an absent text is
-- `none`); what is logged is left out.
pub mod Argv
pub mod Allowed
pub mod Decisions
pub mod Routes
mod Tests
use bbs.Prelude.{
  ℕ, zero, suc, ◌+◌, Bool, true, false, ◌&&◌, ◌||◌, not, List, [], ◌∷◌, ◌++◌, map, Option, none,
  some, ltb, leb, ◌==◌, if◌then◌else◌, Eq, ◌=?◌, nat_eq, list_eq,
}
use bbs.Text.{Text, upper, strip, before_dash, codes, is_digit, is_upper}
use bbs.Dict.{Dict, get, has, put, keys, values, is_empty}
use bbs.Core.Auth.{AuthLevel, anonymous, identified, authenticated, sysop, level_lt}

pub data ServiceAction : Type 0 where
  pass exec refuse : ServiceAction

pub record ServiceRoute : Type 0 where
  pub called : Text
  pub exec_path : Text
  pub args : List Text
  pub min_auth : AuthLevel
  pub no_digi : Bool
  pub quiet : Bool
  pub crlf : Bool
  pub idle_timeout : ℕ
  pub env : Dict Text Text

pub data Refusal : Type 0 where
  invalid_caller locked_out via_digipeater auth_too_low : Refusal

pub record ServiceDecision : Type 0 where
  pub action : ServiceAction
  pub route : Option ServiceRoute
  pub reason : Option Refusal

pub record ServiceDispatcher : Type 0 where
  pub routes : Dict Text ServiceRoute
  pub lockout : Dict Text (Unit {0})
  pub enabled_flag : Bool
  pub max_sessions : ℕ

pub record RouteSpec : Type 0 where
  pub exec_path : Option Text
  pub args : List Text
  pub min_auth : Option Text
  pub no_digi : Bool
  pub quiet : Bool
  pub crlf : Bool
  pub idle_timeout : ℕ
  pub env : Dict Text Text

pub record ServicesConfig : Type 0 where
  pub enabled : Option Bool
  pub max_sessions : Option ℕ
  pub lockout : List Text
  pub routes : List (Text × RouteSpec)

-- What the dispatcher reads of a Connection; an address that is not known is empty.
pub record Connection : Type 0 where
  pub local_addr : Text
  pub remote_addr : Text
  pub hop_count : ℕ
  pub transport_id : Text

abbrev pub lower_char : ℕ → ℕ
lower_char c = if is_upper c then c + 32 else c

-- s.lower()
abbrev pub lower : Text → Text
lower = map lower_char

unfoldable pub min_auth_of : Text → Option AuthLevel
min_auth_of name =
    if name =? codes "none" || name =? codes "anonymous"
    then some anonymous
    else if name =? codes "identified"
    then some identified
    else if name =? codes "authenticated"
    then some authenticated
    else if name =? codes "sysop"
    then some sysop
    else none

abbrev pub text_or : Text → Option Text → Text
text_or d none = d
text_or d (some s) = s

abbrev or_identified : Option AuthLevel → AuthLevel
or_identified none = identified
or_identified (some level) = level

-- os.path.isabs
abbrev pub is_abs : Text → Bool
is_abs [] = false
is_abs (c ∷ s) = c == 47

abbrev has_slash : Text → Bool
has_slash [] = false
has_slash (c ∷ s) = c == 47 || has_slash s

-- os.path.basename
unfoldable pub basename : Text → Text
basename [] = []
basename (c ∷ s) = let rest = basename s in if has_slash (c ∷ s) then rest else c ∷ s

-- An empty list of arguments becomes the name of the program.
abbrev pub argv_of : Text → List Text → List Text
argv_of exec_path [] = basename exec_path ∷ []
argv_of exec_path (a ∷ args) = a ∷ args

unfoldable pub parse_route : Text → RouteSpec → Option ServiceRoute
parse_route called spec =
    let exec_path = strip (text_or [] spec.exec_path) in
    if not (is_abs exec_path)
    then none
    else some (record {
      called = strip (upper called);
      exec_path = exec_path;
      args = argv_of exec_path spec.args;
      min_auth =
          or_identified (min_auth_of (strip (lower (text_or (codes "identified") spec.min_auth))));
      no_digi = spec.no_digi;
      quiet = spec.quiet;
      crlf = spec.crlf;
      idle_timeout = spec.idle_timeout;
      env = spec.env;
    })

abbrev pub add_route : Option ServiceRoute → Dict Text ServiceRoute → Dict Text ServiceRoute
add_route none routes = routes
add_route (some r) routes = put routes r.called r

unfoldable pub parse_routes :
    List (Text × RouteSpec) → Dict Text ServiceRoute → Dict Text ServiceRoute
parse_routes [] routes = routes
parse_routes ((called, spec) ∷ more) routes =
    parse_routes more (add_route (parse_route called spec) routes)

-- An empty entry is left out.
unfoldable pub parse_lockout : List Text → Dict Text (Unit {0})
parse_lockout [] = []
parse_lockout ([] ∷ more) = parse_lockout more
parse_lockout ((c ∷ s) ∷ more) = put (parse_lockout more) (strip (upper (c ∷ s))) tt

abbrev bool_or : Bool → Option Bool → Bool
bool_or d none = d
bool_or d (some b) = b

abbrev number_or : ℕ → Option ℕ → ℕ
number_or d none = d
number_or d (some n) = n

unfoldable pub reload : ServicesConfig → ServiceDispatcher
reload cfg = record {
  routes = parse_routes cfg.routes [];
  lockout = parse_lockout cfg.lockout;
  enabled_flag = bool_or (not (is_empty cfg.routes)) cfg.enabled;
  max_sessions = number_or 10 cfg.max_sessions;
}

unfoldable pub enabled : ServiceDispatcher → Bool
enabled d = d.enabled_flag && not (is_empty d.routes)

abbrev pub route_callsigns : ServiceDispatcher → List Text
route_callsigns d = keys d.routes

-- The tail of `_CALLSIGN_RE`: the end, or a dash and one or two digits.
abbrev pub is_ssid : Text → Bool
is_ssid [] = true
is_ssid (c ∷ d ∷ []) = c == 45 && is_digit d
is_ssid (c ∷ d ∷ e ∷ []) = c == 45 && (is_digit d && is_digit e)
is_ssid _ = false

abbrev pub is_call : ℕ → Text → Bool
is_call zero s = false
is_call (suc n) [] = false
is_call (suc n) (c ∷ s) = (is_upper c || is_digit c) && (is_ssid s || is_call n s)

unfoldable pub is_caller : Text → Bool
is_caller s = is_call 6 s

unfoldable pub is_locked_out : ServiceDispatcher → Text → Bool
is_locked_out d caller = has d.lockout caller || has d.lockout (before_dash caller)

abbrev refused : ServiceRoute → Refusal → ServiceDecision
refused r why = record { action = refuse; route = some r; reason = some why }

abbrev passed : ServiceDecision
passed = record { action = pass; route = none; reason = none }

-- The checks on a route that was found, in the order of the source.
unfoldable pub admit : ServiceDispatcher → ServiceRoute → Text → ℕ → ServiceDecision
admit d r caller hop_count =
    if not (is_caller caller)
    then refused r invalid_caller
    else if is_locked_out d caller
    then refused r locked_out
    else if r.no_digi && ltb 0 hop_count
    then refused r via_digipeater
    else if level_lt identified r.min_auth
    then refused r auth_too_low
    else record { action = exec; route = some r; reason = none }

abbrev classify : ServiceDispatcher → Text → ℕ → Option ServiceRoute → ServiceDecision
classify d caller hop_count none = passed
classify d caller hop_count (some r) = admit d r caller hop_count

unfoldable pub match_ : ServiceDispatcher → Connection → ServiceDecision
match_ d conn =
    if not (enabled d)
    then passed
    else classify d (strip (upper conn.remote_addr)) conn.hop_count
        (get d.routes (strip (upper conn.local_addr)))
