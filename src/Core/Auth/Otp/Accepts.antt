-- ===== src/Core/Auth/Otp/Accepts.antt =====
-- Which codes the verification accepts, and what it writes to the table then.
use bbs.Prelude.{
  ℕ, ◌+◌, ◌≤◌, ◌<◌, true, false, ◌≡◌, ◌↔◌, refl, sym, ap, ◌∙◌, some_injective, List, none, some,
  arith, Bool-cases, inl, inr,
}
use bbs.Text.{Text, strip}
use bbs.Db.Users.{
  User, Users, get_by_callsign, is_locked, has_secret, with_counter, with_failures,
  reset_auth_failures, increment_hotp_counter,
}
use bbs.Db.Users.Laws.{get-update_user, with_counter-IsColumnUpdate, with_failures-IsColumnUpdate}
use bbs.Core.Auth.{AuthState}
use bbs.Core.Auth.Code.{hotp_code}
use bbs.Core.Auth.Otp.{
  AuthConfig, Verified, is_hotp, secret_of, is_code, match_code, verify_user, verify_otp, succeed,
  fail_code, refuse_code, minutes_left, locked, no_secret,
}
use bbs.Core.Auth.Otp.Match.{IsClock, IsMatch, match_code-outcomes, is_code-IsMatch}

module _ (hmac_sha1 : List ℕ → List ℕ → List ℕ) where
  pub record IsAccepted (cfg : AuthConfig) (now : ℕ) (u : User) (code : Text) : Type 0 where
    pub unlocked : is_locked now u ≡ false
    pub secret : has_secret u ≡ true
    pub matched : IsMatch hmac_sha1 cfg now u (strip code)

  pub verify_otp-found :
      (cfg : AuthConfig) (now : ℕ) (db : Users) (state : AuthState) (code : Text) {u : User}
      → get_by_callsign db state.callsign ≡ some u
      → verify_otp hmac_sha1 cfg now db state code ≡ verify_user hmac_sha1 cfg now db state u code
  unfolding verify_otp
  verify_otp-found cfg now db state code found = rw (found, verify_otp) refl

  module _ (cfg : AuthConfig) (now : ℕ) (db : Users) (state : AuthState) (u : User)
      (code : Text) where
    pub verify_user-locked :
        is_locked now u ≡ true
        → verify_user hmac_sha1 cfg now db state u code
          ≡ some (refuse_code db state (locked (minutes_left now u.locked_until)))
    unfolding verify_user
    verify_user-locked e = ground (arith, e)

    verify_user-no_secret :
        is_locked now u ≡ false
        → has_secret u ≡ false
        → verify_user hmac_sha1 cfg now db state u code ≡ some (refuse_code db state no_secret)
    unfolding verify_user
    verify_user-no_secret e d = ground (arith, e, d)

    verify_user-judged :
        is_locked now u ≡ false
        → has_secret u ≡ true
        → is_code (strip code) ≡ true
        → verify_user hmac_sha1 cfg now db state u code
          ≡ match_code hmac_sha1 cfg now db state u (strip code)
    unfolding verify_user
    verify_user-judged e d c = ground (arith, e, d, c)

  pub verify_user-wrong :
      (cfg : AuthConfig) (now : ℕ) (db : Users) (state : AuthState) (u : User) (code : Text)
      → IsClock cfg now
      → is_locked now u ≡ false
      → has_secret u ≡ true
      → (IsMatch hmac_sha1 cfg now u (strip code) → ⊥)
      → verify_user hmac_sha1 cfg now db state u code ≡ some (fail_code cfg now db state u)
  unfolding verify_user
  verify_user-wrong cfg now db state u code clock unlocked secret wrong =
      elim (match_code-outcomes hmac_sha1 cfg now db state u (strip code) clock) [
        | inl (o, _) ↦ ground (arith, unlocked, secret, o)
        | inr (inl (h, (k, a, b, c, o))) ↦ absurd (wrong (inl (h, (k, a, b, c))))
        | inr (inr (h, m, o)) ↦ absurd (wrong (inr (h, m)))
      ]

  -- With a user, a working clock and any code, the verification ends, and succeeds exactly on an
  -- accepted code.
  pub verify_otp-accepts :
      (cfg : AuthConfig) (now : ℕ) (db : Users) (state : AuthState) (u : User) (code : Text)
      → IsClock cfg now
      → get_by_callsign db state.callsign ≡ some u
      → (r : Verified) × (verify_otp hmac_sha1 cfg now db state code ≡ some r)
        × ((r.success ≡ true) ↔ IsAccepted cfg now u code)
  unfolding succeed fail_code
  verify_otp-accepts cfg now db state u code clock found = elim (Bool-cases (is_locked now u)) [
    | inl e ↦ (
      refuse_code db state (locked (minutes_left now u.locked_until)),
      verify_otp-found cfg now db state code found ∙ verify_user-locked cfg now db state u code e,
      (λ h. (cc), λ a. let open_now = a.unlocked in (cc)),
    )
    | inr unlocked ↦ elim (Bool-cases (has_secret u)) [
      | inr e ↦ (
        refuse_code db state no_secret,
        verify_otp-found cfg now db state code found
            ∙ verify_user-no_secret cfg now db state u code unlocked e,
        (λ h. (cc), λ a. let set = a.secret in (cc)),
      )
      | inl secret ↦ elim (match_code-outcomes hmac_sha1 cfg now db state u (strip code) clock) [
        | inl (o, wrong) ↦ (
          fail_code cfg now db state u,
          verify_otp-found cfg now db state code found
              ∙ verify_user-wrong cfg now db state u code clock unlocked secret wrong,
          (λ h. (cc), λ a. absurd (wrong a.matched)),
        )
        | inr (inl (hotp, (k, low, high, same, o))) ↦
            let m : IsMatch hmac_sha1 cfg now u (strip code) = inl (hotp, (k, low, high, same)) in
            let shape = is_code-IsMatch hmac_sha1 cfg now u (strip code) m in
            (
              succeed cfg db state u (some (k + 1)),
              verify_otp-found cfg now db state code found
                  ∙ (verify_user-judged cfg now db state u code unlocked secret shape ∙ o),
              (λ h. record { unlocked = unlocked; secret = secret; matched = m }, λ a. refl),
            )
        | inr (inr (totp, t, o)) ↦
            let m : IsMatch hmac_sha1 cfg now u (strip code) = inr (totp, t) in
            let shape = is_code-IsMatch hmac_sha1 cfg now u (strip code) m in
            (
              succeed cfg db state u none,
              verify_otp-found cfg now db state code found
                  ∙ (verify_user-judged cfg now db state u code unlocked secret shape ∙ o),
              (λ h. record { unlocked = unlocked; secret = secret; matched = m }, λ a. refl),
            )
      ]
    ]
  ]

  -- What a success with a counter writes: no failures, no lock, and the counter behind the one
  -- that was used, which was not used before.
  pub verify_otp-uses_counter :
      (cfg : AuthConfig) (now : ℕ) (db : Users) (state : AuthState) (u : User) (code : Text)
      (r : Verified)
      → IsClock cfg now
      → get_by_callsign db state.callsign ≡ some u
      → is_hotp u ≡ true
      → verify_otp hmac_sha1 cfg now db state code ≡ some r
      → r.success ≡ true
      → (k : ℕ) × (u.hotp_counter ≤ k)
        × (k < u.hotp_counter + 3)
        × (hotp_code hmac_sha1 (secret_of u) k ≡ strip code)
        × (get_by_callsign r.users state.callsign
            ≡ some (with_counter (k + 1) (with_failures 0 none u)))
  unfolding succeed reset_auth_failures increment_hotp_counter
  verify_otp-uses_counter cfg now db state u code r clock found hotp run success =
      let (r1, run1, accepts) = verify_otp-accepts cfg now db state u code clock found in
      let same : r1 ≡ r = some_injective (sym run1 ∙ run) in
      let a : IsAccepted cfg now u code = accepts.0 (ap (λ v. v.success) same ∙ success) in
      let open_now = a.unlocked in
      let set = a.secret in
      elim (match_code-outcomes hmac_sha1 cfg now db state u (strip code) clock) [
        | inl (_, wrong) ↦ absurd (wrong a.matched)
        | inr (inr (totp, _, _)) ↦ (cc)
        | inr (inl (_, (k, low, high, code_k, o))) ↦
            let m : IsMatch hmac_sha1 cfg now u (strip code) = inl (hotp, (k, low, high, code_k)) in
            let shape = is_code-IsMatch hmac_sha1 cfg now u (strip code) m in
            let ran : r ≡ succeed cfg db state u (some (k + 1)) = some_injective (
              sym run
              ∙ (verify_otp-found cfg now db state code found
                  ∙ (verify_user-judged cfg now db state u code open_now set shape ∙ o))) in
            let cleared =
              get-update_user db state.callsign (with_failures 0 none)
                (with_failures-IsColumnUpdate 0 none) found in
            let moved =
              get-update_user (reset_auth_failures u.id db) state.callsign (with_counter (k + 1))
                (with_counter-IsColumnUpdate (k + 1)) cleared in
            (k, low, high, code_k, rw ran moved)
      ]
