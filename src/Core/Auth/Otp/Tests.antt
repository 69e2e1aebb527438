-- ===== src/Core/Auth/Otp/Tests.antt =====
-- Runs of the verification, over a digest of twenty zeros, which makes every code 000000.
use bbs.Prelude.{
  ℕ, ◌+◌, ◌≤◌, ◌<◌, true, ◌≡◌, ◌↔◌, refl, List, [], ◌∷◌, ◌++◌, none, some, arith, replicate, inl,
  inr, sym, list_beq, list_beq_iff, nat_eq, ◌∙◌,
}
use bbs.Text.{Text, codes, strip, lstrip, rstrip}
use bbs.Db.Users.{
  User, Users, get_by_callsign, row_by_callsign, row_to_user, normalize_color_mode, row_by_id,
  has_secret, is_locked, with_counter, with_failures, new_user,
}
use bbs.Db.Users.Laws.{IsKeyed}
use bbs.Core.Auth.{AuthState, identified}
use bbs.Core.Auth.Code.{hotp_code, zero_filled, truncated, unpack_be}
use bbs.Core.Auth.Otp.{
  AuthConfig, Verified, verify_otp, verify_user, match_code, match_hotp, is_code, secret_of,
  refuse_code, locked, minutes_left, succeed,
}
use bbs.Core.Auth.Otp.Match.{IsClock, IsMatch}
use bbs.Core.Auth.Otp.Accepts.{IsAccepted, verify_otp-accepts, verify_otp-uses_counter}
use bbs.Core.Auth.Otp.Lockout.{attempts, guesses-close}

abbrev zeros : List ℕ → List ℕ → List ℕ
zeros secret message = replicate 20 0

abbrev cfg : AuthConfig
cfg = record { station = codes "W6ELA"; max_attempts = 3; lockout_secs = 300; time_step = 30 }

abbrev user : User
user = record (new_user 5 1 (codes "K6FB") true) { totp_secret = some (7 ∷ []) }

abbrev hotp_user : User
hotp_user = record user { otp_type = codes "hotp"; hotp_counter = 4 }

abbrev db : Users
db = record { rows = user ∷ []; last_id = 1 }

abbrev hotp_db : Users
hotp_db = record { rows = hotp_user ∷ []; last_id = 1 }

abbrev state : AuthState
state = record { callsign = codes "K6FB"; level = identified; user_id = some 1; approved = true }

found : get_by_callsign db state.callsign ≡ some user
unfolding get_by_callsign row_by_callsign row_to_user normalize_color_mode strip lstrip rstrip
found = refl

hotp_found : get_by_callsign hotp_db state.callsign ≡ some hotp_user
unfolding get_by_callsign row_by_callsign row_to_user normalize_color_mode strip lstrip rstrip
hotp_found = refl

clock : (n : ℕ) → 100 ≤ n → n < 120 → IsClock cfg n
clock n h k = record { step_pos = omega arith; started = omega arith }

abbrev ones : Text
ones = replicate 6 49

abbrev noughts : Text
noughts = replicate 6 48

every_code : (secret : List ℕ) (k : ℕ) → hotp_code zeros secret k ≡ noughts
unfolding hotp_code zero_filled truncated unpack_be
every_code secret k = refl

strip-ones : strip ones ≡ ones
unfolding strip lstrip rstrip
strip-ones = refl

zero_ne_one : noughts ≡ ones → ⊥
zero_ne_one h = let same : list_beq noughts ones ≡ true = (list_beq_iff noughts ones).1 h in (cc)

differs : (c : Text) → c ≡ noughts → c ≡ strip ones → ⊥
differs c h k = zero_ne_one (sym h ∙ (k ∙ strip-ones))

wrong : (n : ℕ) → (IsMatch zeros cfg n user (strip ones) → ⊥)
wrong n m = elim m [
  | inl (h, _) ↦ (cc)
  | inr (_, (k, _, _, same)) ↦
      differs (hotp_code zeros (secret_of user) k) (every_code (secret_of user) k) same
]

keyed : IsKeyed db.rows
unfolding row_by_id
keyed = (refl, tt)

has : has_secret user ≡ true
unfolding has_secret
has = refl

verify_otp-accepts_example :
    (r : Verified) × (verify_otp zeros cfg 100 db state (codes " 000000") ≡ some r)
    × ((r.success ≡ true) ↔ IsAccepted zeros cfg 100 user (codes " 000000"))
verify_otp-accepts_example =
    verify_otp-accepts zeros cfg 100 db state user (codes " 000000")
      (clock 100 (omega arith) (omega arith)) found

abbrev logged_in : Verified
logged_in = succeed cfg hotp_db state hotp_user (some 5)

hotp_run : verify_otp zeros cfg 100 hotp_db state (codes "000000") ≡ some logged_in
unfolding verify_otp verify_user match_code match_hotp is_code is_locked has_secret strip lstrip
    rstrip get_by_callsign row_by_callsign row_to_user normalize_color_mode hotp_code zero_filled
    truncated unpack_be
hotp_run = refl

succeeded : logged_in.success ≡ true
unfolding succeed
succeeded = refl

verify_otp-uses_counter_example :
    (k : ℕ) × (hotp_user.hotp_counter ≤ k)
    × (k < hotp_user.hotp_counter + 3)
    × (hotp_code zeros (secret_of hotp_user) k ≡ strip (codes "000000"))
    × (get_by_callsign logged_in.users state.callsign
        ≡ some (with_counter (k + 1) (with_failures 0 none hotp_user)))
verify_otp-uses_counter_example =
    verify_otp-uses_counter zeros cfg 100 hotp_db state hotp_user (codes "000000") logged_in
      (clock 100 (omega arith) (omega arith)) hotp_found refl hotp_run succeeded

guesses-close_example :
    (after : Users) × (attempts zeros cfg state
        ((100, ones) ∷ (101, ones) ∷ [] ++ (102, ones) ∷ [])
        db
      ≡ some after)
    × (verify_otp zeros cfg 401 after state (codes "000000")
        ≡ some
            (refuse_code after state (locked (minutes_left 401 (some (102 + cfg.lockout_secs))))))
guesses-close_example =
    guesses-close zeros cfg state ((100, ones) ∷ (101, ones) ∷ []) 102 ones db user 401
      (codes "000000") keyed found refl has refl
      (
        clock 100 (omega arith) (omega arith),
        wrong 100,
        (
          clock 101 (omega arith) (omega arith),
          wrong 101,
          (clock 102 (omega arith) (omega arith), wrong 102, tt),
        ),
      )
      (omega arith)
