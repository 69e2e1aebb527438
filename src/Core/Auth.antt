-- ===== src/Core/Auth.antt =====
-- bbs/core/auth.py: the access levels, the state of a session, and its identification. The
-- children model the one-time codes.
pub mod Code
pub mod Otp
use bbs.Prelude.{ℕ, Bool, true, false, Option, none, some, ltb, leb, ◌==◌, not}
use bbs.Text.{Text, upper, strip}
use bbs.Db.Users.{User, Users, get_or_create, update_last_seen, get_by_id}

pub data AuthLevel : Type 0 where
  anonymous identified authenticated sysop : AuthLevel

abbrev pub level_value : AuthLevel → ℕ
level_value anonymous = 0
level_value identified = 1
level_value authenticated = 2
level_value sysop = 3

-- a < b
abbrev pub level_lt : AuthLevel → AuthLevel → Bool
level_lt a b = ltb (level_value a) (level_value b)

pub record AuthState : Type 0 where
  pub callsign : Text
  pub level : AuthLevel
  pub user_id : Option ℕ
  pub approved : Bool

unfoldable pub require : AuthState → AuthLevel → Bool
require state level = leb (level_value level) (level_value state.level)

abbrev pub is_identified : AuthState → Bool
is_identified state = leb (level_value identified) (level_value state.level)

abbrev pub is_authenticated : AuthState → Bool
is_authenticated state = leb (level_value authenticated) (level_value state.level)

abbrev pub is_sysop : AuthState → Bool
is_sysop state = level_value state.level == level_value sysop

-- The setting `enforce_active` of the bulletins plugin leaves a new account pending.
unfoldable pub identify : Bool → ℕ → Text → Users → Users × (AuthState × Bool)
identify enforce_active now callsign db =
    let call = strip (upper callsign) in
    let made : Users × (User × Bool) = get_or_create now db call (not enforce_active) in
    let u : User = made.1.0 in
    (
      update_last_seen now u.id made.0,
      (
        record { callsign = call; level = identified; user_id = some u.id; approved = u.approved },
        made.1.1,
      ),
    )

unfoldable pub get_user : Users → AuthState → Option User
get_user db state = elim state.user_id [ none ↦ none | some i ↦ get_by_id db i ]
