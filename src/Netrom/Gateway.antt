-- ===== src/Netrom/Gateway.antt =====
-- bbs/netrom/gateway.py: the GatewayGuard. Times are whole milliseconds.
pub mod Permitted
pub mod Gates
pub mod Accounting
mod Tests
use bbs.Prelude.{
  ℕ, zero, suc, ◌+◌, ◌-◌, Bool, true, false, ◌&&◌, ◌||◌, not, List, [], ◌∷◌, ◌++◌, Option, none,
  some, ltb, leb, ◌==◌, if◌then◌else◌, length, drop, Eq, ◌=?◌, nat_eq, list_eq,
}
use bbs.Text.{Text, upper, strip, before_dash, codes}
use bbs.Dict.{Dict, get, has, put, remove, is_empty}
use bbs.Dict.Totals.{get_or_zero}
use bbs.Core.Auth.{AuthLevel, identified, level_lt}

-- str(call).upper().strip()
unfoldable pub norm : Text → Text
unfolding strip
norm call = strip (upper call)

unfoldable pub base : Text → Text
unfolding norm before_dash
base call = before_dash (norm call)

-- The sets `allow` and `deny` hold normalised calls.
pub record GatewayPolicy : Type 0 where
  pub min_auth : AuthLevel
  pub allow : Dict Text (Unit {0})
  pub deny : Dict Text (Unit {0})
  pub interlock : Bool
  pub rate_limit_per_min : ℕ
  pub max_circuits_per_user : ℕ
  pub max_circuits : ℕ

pub record Refusal : Type 0 where
  pub ts : ℕ
  pub user : Text
  pub dest : Text
  pub reason : Text

pub record GatewayGuard : Type 0 where
  pub policy : GatewayPolicy
  pub rate : Dict Text (List ℕ)
  pub active_total : ℕ
  pub active_per_user : Dict Text ℕ
  pub refusals : List Refusal

-- The reasons that `check` gives.
pub data Reason : Type 0 where
  access_denied not_authorized rate_limit interlocked : Reason
  auth_required : AuthLevel → Reason

abbrev pub minute : ℕ
minute = 60000

-- The lazy prune: timestamps older than a minute are taken off the front.
unfoldable pub prune : ℕ → List ℕ → List ℕ
prune now [] = []
prune now (t ∷ ts) = let rest = prune now ts in if ltb (t + minute) now then rest else t ∷ ts

-- The window of a caller, pruned; an empty one is dropped from the table.
unfoldable pub pruned : Text → List ℕ → GatewayGuard → Bool × GatewayGuard
pruned b [] g = (false, record g { rate = remove g.rate b })
pruned b (t ∷ ts) g =
    (leb g.policy.rate_limit_per_min (length (t ∷ ts)), record g { rate = put g.rate b (t ∷ ts) })

abbrev pub judged : ℕ → Text → GatewayGuard → Option (List ℕ) → Bool × GatewayGuard
judged now b g none = (false, g)
judged now b g (some []) = (false, g)
judged now b g (some (t ∷ ts)) = pruned b (prune now (t ∷ ts)) g

unfoldable pub rate_exceeded : ℕ → Text → GatewayGuard → Bool × GatewayGuard
rate_exceeded now b g = judged now b g (get g.rate b)

-- The arguments of `check`; a caller without a level counts as identified.
pub record Attempt : Type 0 where
  pub user_call : Text
  pub auth_level : Option AuthLevel
  pub dest_call : Text
  pub neighbor : Text
  pub arrival_via : Text

abbrev pub level_of : Option AuthLevel → AuthLevel
level_of none = identified
level_of (some level) = level

unfoldable pub is_listed : Dict Text (Unit {0}) → Text → Bool
is_listed calls call = has calls (norm call) || has calls (base call)

unfoldable pub interlocks : GatewayPolicy → Attempt → Bool
interlocks p a =
    p.interlock && not (length a.arrival_via == 0) && norm a.neighbor =? norm a.arrival_via

-- The first gate that fails, in the order of the source.
unfoldable pub check : ℕ → Attempt → GatewayGuard → Option Reason × GatewayGuard
check now a g =
    let p = g.policy in
    let limited : Bool × GatewayGuard = rate_exceeded now (base a.user_call) g in
    let gate : Bool × GatewayGuard = if ltb 0 p.rate_limit_per_min then limited else (false, g) in
    if is_listed p.deny a.user_call
    then (some access_denied, g)
    else if not (is_empty p.allow) && not (is_listed p.allow a.user_call)
    then (some not_authorized, g)
    else if level_lt (level_of a.auth_level) p.min_auth
    then (some (auth_required p.min_auth), g)
    else if gate.0
    then (some rate_limit, gate.1)
    else if interlocks p a
    then (some interlocked, gate.1)
    else (none, gate.1)

abbrev pub window_of : Option (List ℕ) → List ℕ
window_of none = []
window_of (some ts) = ts

unfoldable pub acquire : ℕ → Text → GatewayGuard → Bool × GatewayGuard
acquire now user_call g =
    let b = base user_call in
    let n = get_or_zero (get g.active_per_user b) in
    let stamped =
      if ltb 0 g.policy.rate_limit_per_min
      then put g.rate b (window_of (get g.rate b) ++ now ∷ [])
      else g.rate in
    if leb g.policy.max_circuits g.active_total
    then (false, g)
    else if leb g.policy.max_circuits_per_user n
    then (false, g)
    else (
      true,
      record g {
        active_total = g.active_total + 1;
        active_per_user = put g.active_per_user b (n + 1);
        rate = stamped;
      },
    )

-- `-` stops at 0, as the guard of the source does.
unfoldable pub release : Text → GatewayGuard → GatewayGuard
release user_call g =
    let b = base user_call in
    let n = get_or_zero (get g.active_per_user b) in
    record g {
      active_total = g.active_total - 1;
      active_per_user =
          if leb n 1 then remove g.active_per_user b else put g.active_per_user b (n - 1);
    }

abbrev pub refusal_history : ℕ
refusal_history = 50

-- A deque with maxlen: the oldest entries leave.
unfoldable pub note_refusal : ℕ → Text → Text → Text → GatewayGuard → GatewayGuard
note_refusal now user_call reason dest g =
    let ring =
      g.refusals
      ++ (record { ts = now; user = norm user_call; dest = norm dest; reason = reason }) ∷ [] in
    record g { refusals = drop (length ring - refusal_history) ring }
