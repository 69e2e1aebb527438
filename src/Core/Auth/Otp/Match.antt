-- ===== src/Core/Auth/Otp/Match.antt =====
-- What the comparison of a well-formed code with the stored secret yields.
use bbs.Prelude.{
  ℕ, ◌+◌, ◌-◌, ◌/◌, ◌≤◌, ◌<◌, zero, suc, true, false, ◌≡◌, ◌≢◌, refl, sym, ap, ◌∙◌, List, [], ◌∷◌,
  Option, none, some, arith, list_beq_iff, list_eq, nat_eq, ◌=?◌, Option-cases, Bool-cases, inl,
  inr, ◌⊎◌,
}
use bbs.Text.{Text}
use bbs.Db.Users.{User, Users}
use bbs.Core.Auth.{AuthState}
use bbs.Core.Auth.Code.{hotp_code, totp_window}
use bbs.Core.Auth.Code.Laws.{is_code-hotp_code}
use bbs.Core.Auth.Otp.{
  AuthConfig, Verified, is_hotp, secret_of, match_hotp, is_among, is_code, match_code, succeed,
  fail_code,
}

-- A clock at which the TOTP window exists.
pub record IsClock (cfg : AuthConfig) (now : ℕ) : Type 0 where
  pub step_pos : 1 ≤ cfg.time_step
  pub started : 1 ≤ now / cfg.time_step

abbrev three : (ℕ → Text) → ℕ → List Text
three g t = g (t - 1) ∷ g t ∷ g (t + 1) ∷ []

among-three :
    (g : ℕ → Text) (t : ℕ) (code : Text)
    → is_among code (three g t) ≡ true
    → 1 ≤ t
    → (k : ℕ) × (t ≤ k + 1) × (k ≤ t + 1) × (g k ≡ code)
among-three g t code h pos = elim (Bool-cases (g (t - 1) =? code)) [
  | inl e ↦ (t - 1, omega arith, omega arith, (list_beq_iff (g (t - 1)) code).0 e)
  | inr d ↦ elim (Bool-cases (g t =? code)) [
    | inl e ↦ (t, omega arith, omega arith, (list_beq_iff (g t) code).0 e)
    | inr e ↦
        let last : (g (t + 1) =? code) ≡ true = ground arith in
        (t + 1, omega arith, omega arith, (list_beq_iff (g (t + 1)) code).0 last)
  ]
]

three-among :
    (g : ℕ → Text) (t k : ℕ) (code : Text)
    → t ≤ k + 1
    → k ≤ t + 1
    → g k ≡ code
    → is_among code (three g t) ≡ true
three-among g t k code low high e =
    let before = list_beq_iff (g (t - 1)) code in
    let at = list_beq_iff (g t) code in
    let after = list_beq_iff (g (t + 1)) code in
    let which : (k ≡ t - 1) ⊎ ((k ≡ t) ⊎ (k ≡ t + 1)) = omega arith in
    elim which [
      | inl p ↦ ground (arith, before.1 (sym (ap g p) ∙ e))
      | inr (inl p) ↦ ground (arith, at.1 (sym (ap g p) ∙ e))
      | inr (inr p) ↦ ground (arith, after.1 (sym (ap g p) ∙ e))
    ]

module _ (hmac_sha1 : List ℕ → List ℕ → List ℕ) where
  -- A code of the user's counters c, c + 1 and c + 2.
  abbrev pub HotpMatch : User → Text → Type 0
  HotpMatch u code =
      (k : ℕ) × (u.hotp_counter ≤ k)
      × (k < u.hotp_counter + 3)
      × (hotp_code hmac_sha1 (secret_of u) k ≡ code)

  -- A code of the time steps t - 1, t and t + 1.
  abbrev pub TotpMatch : AuthConfig → ℕ → User → Text → Type 0
  TotpMatch cfg now u code =
      (k : ℕ) × (now / cfg.time_step ≤ k + 1)
      × (k ≤ now / cfg.time_step + 1)
      × (hotp_code hmac_sha1 (secret_of u) k ≡ code)

  abbrev pub IsMatch : AuthConfig → ℕ → User → Text → Type 0
  IsMatch cfg now u code =
      ((is_hotp u ≡ true) × HotpMatch u code) ⊎ ((is_hotp u ≡ false) × TotpMatch cfg now u code)

  -- What the look-ahead returns.
  match_hotp-some :
      (secret : List ℕ) (code : Text) (n c : ℕ) {m : ℕ}
      → match_hotp hmac_sha1 secret code n c ≡ some m
      → (k : ℕ) × (c ≤ k) × (k < c + n) × (hotp_code hmac_sha1 secret k ≡ code) × (m ≡ k + 1)
  unfolding match_hotp
  match_hotp-some secret code zero c h = (cc)
  match_hotp-some secret code (suc n) c {m = m} h =
      elim (Bool-cases (hotp_code hmac_sha1 secret c =? code)) [
        | inl e ↦ (
          c,
          omega arith,
          omega arith,
          (list_beq_iff (hotp_code hmac_sha1 secret c) code).0 e,
          ground arith,
        )
        | inr e ↦
            let (k, low, high, same, next) =
              match_hotp-some secret code n (c + 1) {m = m} (ground arith) in
            (k, omega arith, omega arith, same, next)
      ]

  match_hotp-none :
      (secret : List ℕ) (code : Text) (n c k : ℕ)
      → match_hotp hmac_sha1 secret code n c ≡ none
      → c ≤ k
      → k < c + n
      → hotp_code hmac_sha1 secret k ≢ code
  unfolding match_hotp
  match_hotp-none secret code zero c k h low high e = absurd (omega arith)
  match_hotp-none secret code (suc n) c k h low high e = ground (
    arith,
    match_hotp-none secret code n (c + 1) k,
    list_beq_iff (hotp_code hmac_sha1 secret c) code,
    list_beq_iff (hotp_code hmac_sha1 secret k) code,
  )

  totp_window_lem :
      (cfg : AuthConfig) (now : ℕ) (secret : List ℕ)
      → IsClock cfg now
      → totp_window hmac_sha1 now cfg.time_step secret
        ≡ some (three (hotp_code hmac_sha1 secret) (now / cfg.time_step))
  unfolding totp_window
  totp_window_lem cfg now secret clock = ground (arith, clock.started, clock.step_pos)

  -- The three outcomes of a well-formed code: refused, a counter used, a time step matched.
  abbrev pub Refused : AuthConfig → ℕ → Users → AuthState → User → Text → Option Verified → Type 0
  Refused cfg now db state u code o =
      (o ≡ some (fail_code cfg now db state u)) × (IsMatch cfg now u code → ⊥)

  abbrev pub UsesCounter : AuthConfig → Users → AuthState → User → Text → Option Verified → Type 0
  UsesCounter cfg db state u code o =
      (is_hotp u ≡ true)
      × ((k : ℕ) × (u.hotp_counter ≤ k)
          × (k < u.hotp_counter + 3)
          × (hotp_code hmac_sha1 (secret_of u) k ≡ code)
          × (o ≡ some (succeed cfg db state u (some (k + 1)))))

  abbrev pub MatchesStep :
      AuthConfig → ℕ → Users → AuthState → User → Text → Option Verified → Type 0
  MatchesStep cfg now db state u code o =
      (is_hotp u ≡ false) × TotpMatch cfg now u code × (o ≡ some (succeed cfg db state u none))

  pub match_code-outcomes :
      (cfg : AuthConfig) (now : ℕ) (db : Users) (state : AuthState) (u : User) (code : Text)
      → IsClock cfg now
      → Refused cfg now db state u code (match_code hmac_sha1 cfg now db state u code)
        ⊎ (UsesCounter cfg db state u code (match_code hmac_sha1 cfg now db state u code)
            ⊎ MatchesStep cfg now db state u code (match_code hmac_sha1 cfg now db state u code))
  unfolding match_code
  match_code-outcomes cfg now db state u code clock =
      let t : ℕ = now / cfg.time_step in
      let g : ℕ → Text = hotp_code hmac_sha1 (secret_of u) in
      let found : Option ℕ = match_hotp hmac_sha1 (secret_of u) code 3 u.hotp_counter in
      elim (Bool-cases (is_hotp u)) [
        | inl hotp ↦ elim (Option-cases found) [
          | inl e ↦ inl (
            rw (hotp, e) refl,
            λ m. elim m [
              | inl (_, (k, low, high, same)) ↦
                  match_hotp-none (secret_of u) code 3 u.hotp_counter k e low high same
              | inr (totp, _) ↦ (cc)
            ],
          )
          | inr (m, e) ↦
              let (k, low, high, same, next) =
                match_hotp-some (secret_of u) code 3 u.hotp_counter {m = m} e in
              inr (inl (hotp, (k, low, high, same, rw (hotp, e, next) refl)))
        ]
        | inr totp ↦
            let w = totp_window_lem cfg now (secret_of u) clock in
            elim (Bool-cases (is_among code (three g t))) [
              | inl e ↦ inr (inr (totp, among-three g t code e clock.started, rw (totp, w, e) refl))
              | inr e ↦ inl (
                rw (totp, w, e) refl,
                λ m. elim m [
                  | inl (hotp, _) ↦ (cc)
                  | inr (_, (k, low, high, same)) ↦
                      let yes : is_among code (three g t) ≡ true =
                        three-among g t k code low high same in
                      (cc)
                ],
              )
            ]
      ]

  pub is_code-IsMatch :
      (cfg : AuthConfig) (now : ℕ) (u : User) (code : Text)
      → IsMatch cfg now u code
      → is_code code ≡ true
  is_code-IsMatch cfg now u code m = elim m [
    | inl (_, (k, _, _, same)) ↦ rw (← same) (is_code-hotp_code hmac_sha1 (secret_of u) k)
    | inr (_, (k, _, _, same)) ↦ rw (← same) (is_code-hotp_code hmac_sha1 (secret_of u) k)
  ]
