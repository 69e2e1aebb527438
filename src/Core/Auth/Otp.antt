-- ===== src/Core/Auth/Otp.antt =====
-- AuthService of bbs/core/auth.py: the prompt and the verification of a one-time code.
pub mod Match
pub mod Accepts
pub mod Lockout
mod Tests
use bbs.Prelude.{
  ℕ, ◌+◌, ◌-◌, ◌*◌, ◌/◌, zero, suc, Bool, true, false, not, ◌&&◌, ◌||◌, List, [], ◌∷◌, Option, none,
  some, ltb, leb, ◌==◌, if◌then◌else◌, length, ◌>>=◌, ◌=?◌, nat_eq, list_eq,
}
use bbs.Text.{all_digits, Text, codes, upper, strip, is_digit}
use bbs.Db.Users.{
  User, Users, get_by_callsign, is_locked, has_secret, record_auth_failure, reset_auth_failures,
  increment_hotp_counter,
}
use bbs.Core.Auth.{AuthState, AuthLevel, authenticated, sysop}
use bbs.Core.Auth.Code.{hotp_code, totp_window}

-- The settings that the service reads: the station's callsign, auth_max_attempts,
-- auth_lockout_seconds and totp_time_step.
pub record AuthConfig : Type 0 where
  pub station : Text
  pub max_attempts : ℕ
  pub lockout_secs : ℕ
  pub time_step : ℕ

pub data Prompt : Type 0 where
  hotp_prompt : ℕ → Prompt
  totp_prompt : Prompt

-- The messages: OK, FAILED, LOCKED (m min remaining), FAILED (no OTP secret configured …),
-- FAILED (account locked for m min) and FAILED (n attempt(s) remaining).
pub data Reply : Type 0 where
  ok failed no_secret : Reply
  locked locked_for attempts_remaining : ℕ → Reply

-- The users, the session, the success and the message.
pub record Verified : Type 0 where
  pub users : Users
  pub state : AuthState
  pub success : Bool
  pub reply : Reply

abbrev pub is_hotp : User → Bool
is_hotp u = u.otp_type =? codes "hotp"

unfoldable pub otp_prompt : Users → AuthState → Prompt
otp_prompt db state = elim (get_by_callsign db state.callsign) [
  | none ↦ totp_prompt
  | some u ↦ if is_hotp u then hotp_prompt u.hotp_counter else totp_prompt
]

-- code.isdigit() and len(code) == 6
unfoldable pub is_code : Text → Bool
is_code code = all_digits code && length code == 6

abbrev pub secret_of : User → List ℕ
secret_of u = elim u.totp_secret [ none ↦ [] | some s ↦ s ]

-- The failure of a malformed or a wrong code.
abbrev pub after_failure : AuthConfig → AuthState → Users × ℕ → Verified
after_failure cfg state (db, failures) = record {
  users = db;
  state = state;
  success = false;
  reply =
      if leb cfg.max_attempts failures
      then locked_for (cfg.lockout_secs / 60)
      else attempts_remaining (cfg.max_attempts - failures);
}

unfoldable pub fail_code : AuthConfig → ℕ → Users → AuthState → User → Verified
fail_code cfg now db state u =
    after_failure cfg state (record_auth_failure now u.id cfg.max_attempts cfg.lockout_secs db)

abbrev pub advance_counter : ℕ → Option ℕ → Users → Users
advance_counter i none db = db
advance_counter i (some n) db = increment_hotp_counter i n db

unfoldable pub succeed : AuthConfig → Users → AuthState → User → Option ℕ → Verified
succeed cfg db state u new_counter = record {
  users = advance_counter u.id new_counter (reset_auth_failures u.id db);
  state = record state {
    level = if upper state.callsign =? upper cfg.station then sysop else authenticated;
    user_id = some u.id;
  };
  success = true;
  reply = ok;
}

abbrev pub refuse_code : Users → AuthState → Reply → Verified
refuse_code db state reply = record { users = db; state = state; success = false; reply = reply }

abbrev pub at_least_one : ℕ → ℕ
at_least_one zero = 1
at_least_one (suc n) = suc n

-- The minutes that are left of a lock.
abbrev pub minutes_left : ℕ → Option ℕ → ℕ
minutes_left now none = 1
minutes_left now (some t) = at_least_one ((t - now) / 60)

abbrev pub is_among : Text → List Text → Bool
is_among code [] = false
is_among code (c ∷ cs) = c =? code || is_among code cs

module _ (hmac_sha1 : List ℕ → List ℕ → List ℕ) where
  -- The look-ahead over n counters: the counter behind the first match.
  unfoldable pub match_hotp : List ℕ → Text → ℕ → ℕ → Option ℕ
  match_hotp secret code zero counter = none
  match_hotp secret code (suc n) counter =
      let rest = match_hotp secret code n (counter + 1) in
      if hotp_code hmac_sha1 secret counter =? code then some (counter + 1) else rest

  abbrev pub judge_hotp : AuthConfig → ℕ → Users → AuthState → User → Option ℕ → Verified
  judge_hotp cfg now db state u none = fail_code cfg now db state u
  judge_hotp cfg now db state u (some n) = succeed cfg db state u (some n)

  abbrev pub judge_totp : AuthConfig → ℕ → Users → AuthState → User → Text → List Text → Verified
  judge_totp cfg now db state u code window =
      if is_among code window then succeed cfg db state u none else fail_code cfg now db state u

  -- A well-formed code against the secret.
  unfoldable pub match_code : AuthConfig → ℕ → Users → AuthState → User → Text → Option Verified
  match_code cfg now db state u code =
      let counters = match_hotp (secret_of u) code 3 u.hotp_counter in
      let window = totp_window hmac_sha1 now cfg.time_step (secret_of u) in
      if is_hotp u
      then some (judge_hotp cfg now db state u counters)
      else (window >>= λ w. some (judge_totp cfg now db state u code w))

  -- The verification for a user that is found.
  unfoldable pub verify_user : AuthConfig → ℕ → Users → AuthState → User → Text → Option Verified
  verify_user cfg now db state u code =
      let clean = strip code in
      let judged = match_code cfg now db state u clean in
      if is_locked now u
      then some (refuse_code db state (locked (minutes_left now u.locked_until)))
      else if not (has_secret u)
      then some (refuse_code db state no_secret)
      else if not (is_code clean)
      then some (fail_code cfg now db state u)
      else judged

  unfoldable pub verify_otp : AuthConfig → ℕ → Users → AuthState → Text → Option Verified
  verify_otp cfg now db state code = elim (get_by_callsign db state.callsign) [
    | none ↦ some (refuse_code db state failed)
    | some u ↦ verify_user cfg now db state u code
  ]
