-- ===== src/Db/Users.antt =====
-- bbs/db/users.py over the table `users` of bbs/db/schema.py: the rows in the order of their ids,
-- and the last id that AUTOINCREMENT gave out. Times are whole seconds of Unix time.
pub mod Laws
use bbs.Prelude.{
  ℕ, ◌+◌, suc, Bool, true, false, List, [], ◌∷◌, ◌++◌, map, Option, none, some, ltb, leb, ◌==◌,
  if◌then◌else◌, ◌||◌, length, ◌=?◌, nat_eq, list_eq,
}
use bbs.Text.{Text, codes, upper, lower, strip}

pub record User : Type 0 where
  pub id : ℕ
  pub callsign : Text
  pub name : Text
  pub qth : Text
  pub approved : Bool
  pub banned : Bool
  pub totp_secret : Option (List ℕ)
  pub otp_type : Text
  pub hotp_counter : ℕ
  pub auth_failures : ℕ
  pub locked_until : Option ℕ
  pub color_mode : Text
  pub created_at : ℕ
  pub last_seen : Option ℕ

pub record Users : Type 0 where
  pub rows : List User
  pub last_id : ℕ

-- `a or b` of two texts
abbrev pub or_text : Text → Text → Text
or_text [] b = b
or_text (c ∷ s) b = c ∷ s

unfoldable pub normalize_color_mode : Text → Text
unfolding strip
normalize_color_mode mode =
    let value = lower (strip (or_text mode (codes "off"))) in
    if value =? codes "off" || value =? codes "ansi16" || value =? codes "truecolor"
    then value
    else codes "off"

-- user.is_locked at the time `now`
unfoldable pub is_locked : ℕ → User → Bool
is_locked now u = elim u.locked_until [ none ↦ false | some t ↦ ltb now t ]

-- user.has_secret
unfoldable pub has_secret : User → Bool
has_secret u = elim u.totp_secret [ none ↦ false | some s ↦ ltb 0 (length s) ]

-- The columns are NOT NULL but for the secret and the two times.
unfoldable pub row_to_user : User → User
row_to_user row = record row {
  otp_type = or_text row.otp_type (codes "totp");
  color_mode = normalize_color_mode row.color_mode;
}

-- SELECT … WHERE callsign = ? COLLATE NOCASE
unfoldable pub row_by_callsign : List User → Text → Option User
row_by_callsign [] call = none
row_by_callsign (u ∷ us) call =
    let rest = row_by_callsign us call in if upper u.callsign =? upper call then some u else rest

-- SELECT … WHERE id = ?
unfoldable pub row_by_id : List User → ℕ → Option User
row_by_id [] i = none
row_by_id (u ∷ us) i = let rest = row_by_id us i in if u.id == i then some u else rest

abbrev pub user_of : Option User → Option User
user_of none = none
user_of (some u) = some (row_to_user u)

unfoldable pub get_by_callsign : Users → Text → Option User
get_by_callsign db call = user_of (row_by_callsign db.rows (strip (upper call)))

unfoldable pub get_by_id : Users → ℕ → Option User
get_by_id db i = user_of (row_by_id db.rows i)

-- INSERT INTO users (callsign, approved), the other columns by their defaults
abbrev pub new_user : ℕ → ℕ → Text → Bool → User
new_user now i call approved = record {
  id = i;
  callsign = call;
  name = [];
  qth = [];
  approved = approved;
  banned = false;
  totp_secret = none;
  otp_type = codes "totp";
  hotp_counter = 0;
  auth_failures = 0;
  locked_until = none;
  color_mode = codes "off";
  created_at = now;
  last_seen = none;
}

unfoldable pub get_or_create : ℕ → Users → Text → Bool → Users × (User × Bool)
get_or_create now db call approved =
    let made : User = new_user now (suc db.last_id) (strip (upper call)) approved in
    elim (row_by_callsign db.rows (strip (upper call))) [
      | none ↦ (
        record { rows = db.rows ++ made ∷ []; last_id = suc db.last_id },
        (row_to_user made, true),
      )
      | some u ↦ (db, (row_to_user u, false))
    ]

-- UPDATE users SET … WHERE id = ?
unfoldable pub update_rows : ℕ → (User → User) → List User → List User
update_rows i f [] = []
update_rows i f (u ∷ us) = (if u.id == i then f u else u) ∷ update_rows i f us

abbrev pub update_user : ℕ → (User → User) → Users → Users
update_user i f db = record db { rows = update_rows i f db.rows }

unfoldable pub update_last_seen : ℕ → ℕ → Users → Users
update_last_seen now i db = update_user i (λ u. record u { last_seen = some now }) db

unfoldable pub set_approved : ℕ → Bool → Users → Users
set_approved i b db = update_user i (λ u. record u { approved = b }) db

unfoldable pub set_banned : ℕ → Bool → Users → Users
set_banned i b db = update_user i (λ u. record u { banned = b }) db

unfoldable pub set_otp_secret : ℕ → List ℕ → Text → Users → Users
set_otp_secret i secret type db =
    update_user i (λ u. record u { totp_secret = some secret; otp_type = type; hotp_counter = 0 })
      db

unfoldable pub clear_otp_secret : ℕ → Users → Users
clear_otp_secret i db = update_user i (λ u. record u { totp_secret = none; hotp_counter = 0 }) db

abbrev pub with_counter : ℕ → User → User
with_counter n u = record u { hotp_counter = n }

unfoldable pub increment_hotp_counter : ℕ → ℕ → Users → Users
increment_hotp_counter i n db = update_user i (with_counter n) db

abbrev pub failures_of : Option User → ℕ
failures_of none = 0
failures_of (some u) = u.auth_failures

abbrev pub with_failures : ℕ → Option ℕ → User → User
with_failures n until u = record u { auth_failures = n; locked_until = until }

-- The new number of failures, and the table.
unfoldable pub record_auth_failure : ℕ → ℕ → ℕ → ℕ → Users → Users × ℕ
record_auth_failure now i max_attempts lockout_seconds db =
    let failures = failures_of (row_by_id db.rows i) + 1 in
    let until = if leb max_attempts failures then some (now + lockout_seconds) else none in
    (update_user i (with_failures failures until) db, failures)

unfoldable pub reset_auth_failures : ℕ → Users → Users
reset_auth_failures i db = update_user i (with_failures 0 none) db

unfoldable pub update_profile : ℕ → Text → Text → Users → Users
update_profile i name qth db =
    update_user i (λ u. record u { name = strip name; qth = strip qth }) db

unfoldable pub set_color_mode : ℕ → Text → Users → Users
set_color_mode i mode db =
    update_user i (λ u. record u { color_mode = normalize_color_mode mode }) db
