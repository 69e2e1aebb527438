-- ===== src/Core/Auth/Otp/Lockout.antt =====
-- Guessing: wrong codes are counted, and enough of them close the account for a time.
use bbs.Prelude.{
  ℕ, ◌+◌, ◌<◌, true, false, ◌≡◌, refl, sym, ap, ◌∙◌, List, [], ◌∷◌, ◌++◌, Option, none, some, arith,
  leb, if◌then◌else◌, length, ◌>>=◌,
}
use bbs.Text.{Text, strip}
use bbs.Db.Users.{
  User, Users, get_by_callsign, is_locked, has_secret, with_failures, record_auth_failure,
}
use bbs.Db.Users.Laws.{
  IsKeyed, get-update_user, with_failures-IsColumnUpdate, row_by_id-user, update_rows-IsKeyed,
  failures-row_to_user,
}
use bbs.Core.Auth.{AuthState}
use bbs.Core.Auth.Otp.{AuthConfig, verify_otp, fail_code, refuse_code, minutes_left, locked}
use bbs.Core.Auth.Otp.Match.{IsClock, IsMatch}
use bbs.Core.Auth.Otp.Accepts.{verify_user-wrong, verify_otp-found, verify_user-locked}

-- The table after a failure of the user u.
abbrev failed_user : AuthConfig → ℕ → User → User
failed_user cfg now u =
    let n = u.auth_failures + 1 in
    with_failures n (if leb cfg.max_attempts n then some (now + cfg.lockout_secs) else none) u

fail_code-counts :
    (cfg : AuthConfig) (now : ℕ) (db : Users) (state : AuthState) {u : User}
    → IsKeyed db.rows
    → get_by_callsign db state.callsign ≡ some u
    → get_by_callsign (fail_code cfg now db state u).users state.callsign
      ≡ some (failed_user cfg now u)
unfolding fail_code record_auth_failure
fail_code-counts cfg now db state {u = u} keyed found =
    let (row, by_id, same) = row_by_id-user db state.callsign keyed found in
    let n : row.auth_failures ≡ u.auth_failures =
      sym (failures-row_to_user row) ∙ ap (λ v. v.auth_failures) same in
    rw (by_id, n)
      (get-update_user db state.callsign (with_failures _ _) (with_failures-IsColumnUpdate _ _)
        found)

-- The failure that reaches the limit, and one before it.
failed_user-last :
    (cfg : AuthConfig) (now : ℕ) (u : User)
    → u.auth_failures + 1 ≡ cfg.max_attempts
    → failed_user cfg now u ≡ with_failures cfg.max_attempts (some (now + cfg.lockout_secs)) u
failed_user-last cfg now u h =
    let reached : leb cfg.max_attempts (u.auth_failures + 1) ≡ true = ground arith in
    rw (reached, h) refl

failed_user-before :
    (cfg : AuthConfig) (now : ℕ) (u : User)
    → u.auth_failures + 1 < cfg.max_attempts
    → failed_user cfg now u ≡ with_failures (u.auth_failures + 1) none u
failed_user-before cfg now u h =
    let below : leb cfg.max_attempts (u.auth_failures + 1) ≡ false = ground arith in rw below refl

fail_code-IsKeyed :
    (cfg : AuthConfig) (now : ℕ) (db : Users) (state : AuthState) (u : User)
    → IsKeyed db.rows
    → IsKeyed (fail_code cfg now db state u).users.rows
unfolding fail_code record_auth_failure
fail_code-IsKeyed cfg now db state u keyed =
    update_rows-IsKeyed db.rows u.id (with_failures _ _) (λ v. refl) keyed

module _ (hmac_sha1 : List ℕ → List ℕ → List ℕ) (cfg : AuthConfig) (state : AuthState) where
  -- Attempts one after the other, each at its time.
  abbrev pub attempts : List (ℕ × Text) → Users → Option Users
  attempts [] db = some db
  attempts ((now, code) ∷ more) db =
      verify_otp hmac_sha1 cfg now db state code >>= (λ r. attempts more r.users)

  -- Attempts at a working clock, of which none is a code of the user.
  abbrev pub AllWrong : User → List (ℕ × Text) → Type 0
  AllWrong u [] = Unit
  AllWrong u ((now, code) ∷ more) =
      IsClock cfg now × (IsMatch hmac_sha1 cfg now u (strip code) → ⊥) × AllWrong u more

  attempt-wrong :
      (now : ℕ) (code : Text) (db : Users) (u : User)
      → IsClock cfg now
      → (IsMatch hmac_sha1 cfg now u (strip code) → ⊥)
      → get_by_callsign db state.callsign ≡ some u
      → u.locked_until ≡ none
      → has_secret u ≡ true
      → verify_otp hmac_sha1 cfg now db state code ≡ some (fail_code cfg now db state u)
  unfolding is_locked
  attempt-wrong now code db u clock wrong found unlocked secret =
      verify_otp-found hmac_sha1 cfg now db state code found
      ∙ verify_user-wrong hmac_sha1 cfg now db state u code clock (rw unlocked refl) secret wrong

  guesses-lock :
      (before : List (ℕ × Text)) (now : ℕ) (code : Text) (db : Users) (u : User)
      → IsKeyed db.rows
      → get_by_callsign db state.callsign ≡ some u
      → u.locked_until ≡ none
      → has_secret u ≡ true
      → u.auth_failures + (length before + 1) ≡ cfg.max_attempts
      → AllWrong u (before ++ (now, code) ∷ [])
      → (after : Users) × (attempts (before ++ (now, code) ∷ []) db ≡ some after)
        × (get_by_callsign after state.callsign
            ≡ some (with_failures cfg.max_attempts (some (now + cfg.lockout_secs)) u))
  unfolding has_secret
  guesses-lock [] now code db u keyed found unlocked secret enough (clock, wrong, _) =
      let run = attempt-wrong now code db u clock wrong found unlocked secret in
      let seen = fail_code-counts cfg now db state keyed found in
      (
        (fail_code cfg now db state u).users,
        rw run refl,
        seen ∙ ap some (failed_user-last cfg now u (omega arith)),
      )
  guesses-lock ((t, guess) ∷ before) now code db u keyed found unlocked secret enough
        (clock, wrong, more) =
      let run = attempt-wrong t guess db u clock wrong found unlocked secret in
      let seen = fail_code-counts cfg t db state keyed found in
      let next : User = with_failures (u.auth_failures + 1) none u in
      let (after, ran, closed) =
        guesses-lock before now code (fail_code cfg t db state u).users next
          (fail_code-IsKeyed cfg t db state u keyed)
          (seen ∙ ap some (failed_user-before cfg t u (omega arith))) refl secret (omega arith)
          more in
      (after, rw run ran, closed)

  -- As many wrong codes as the limit allows close the account: until the lockout is over every
  -- attempt, also one with a right code, is refused and changes nothing.
  pub guesses-close :
      (before : List (ℕ × Text)) (now : ℕ) (code : Text) (db : Users) (u : User) (later : ℕ)
      (guess : Text)
      → IsKeyed db.rows
      → get_by_callsign db state.callsign ≡ some u
      → u.locked_until ≡ none
      → has_secret u ≡ true
      → u.auth_failures + (length before + 1) ≡ cfg.max_attempts
      → AllWrong u (before ++ (now, code) ∷ [])
      → later < now + cfg.lockout_secs
      → (after : Users) × (attempts (before ++ (now, code) ∷ []) db ≡ some after)
        × (verify_otp hmac_sha1 cfg later after state guess
            ≡ some (
                refuse_code after state
                  (locked (minutes_left later (some (now + cfg.lockout_secs))))))
  unfolding is_locked
  guesses-close before now code db u later guess keyed found unlocked secret enough wrong soon =
      let (after, ran, closed) =
        guesses-lock before now code db u keyed found unlocked secret enough wrong in
      let shut : User = with_failures cfg.max_attempts (some (now + cfg.lockout_secs)) u in
      (
        after,
        ran,
        verify_otp-found hmac_sha1 cfg later after state guess closed
            ∙ verify_user-locked hmac_sha1 cfg later after state shut guess (ground arith),
      )
