-- ===== src/Services/Dispatcher/Allowed.antt =====
-- The callers that a route allows, and what each test of the dispatcher decides.
use bbs.Prelude.{
  ℕ, ◌≡◌, refl, ap, true, false, ◌&&◌, [], ◌∷◌, some, ltb, nat_eq, list_eq, ◌⊎◌, zero, suc, ◌++◌,
  ◌≤◌, Bool, leb, length, ◌||◌, false_iff, or_iff, arith, ◌↔◌, inl, inr, Bool-cases,
}
use bbs.Text.{Text, upper, strip, before_dash, is_digit}
use bbs.Dict.{Dict, get, has, is_empty}
use bbs.Dict.Keys.{IsKey, has-IsKey}
use bbs.Core.Auth.{AuthLevel, anonymous, identified, authenticated, sysop, level_lt}
use bbs.Services.Dispatcher.{
  ServiceRoute, ServiceDispatcher, Connection, is_caller, is_locked_out, enabled, is_ssid, is_call,
}

abbrev pub caller_of : Connection → Text
caller_of conn = strip (upper conn.remote_addr)

abbrev pub called_of : Connection → Text
called_of conn = strip (upper conn.local_addr)

-- A character of a callsign.
abbrev pub is_call_char : ℕ → Bool
is_call_char c = (leb 65 c && leb c 90) || (leb 48 c && leb c 57)

abbrev pub CallChars : Text → Type 0
CallChars [] = Unit
CallChars (c ∷ s) = (is_call_char c ≡ true) × CallChars s

-- Nothing, or a dash with one or two digits.
pub data IsSuffix : Text → Type 0 where
  bare : IsSuffix []
  one : (d : ℕ) → is_digit d ≡ true → IsSuffix (45 ∷ d ∷ [])
  two : (d e : ℕ) → is_digit d ≡ true → is_digit e ≡ true → IsSuffix (45 ∷ d ∷ e ∷ [])

-- A callsign of one to `n` capital letters and digits, and an SSID that may be left out.
pub record IsCaller (n : ℕ) (s : Text) : Type 0 where
  pub call : Text
  pub suffix : Text
  pub split : s ≡ call ++ suffix
  pub chars : CallChars call
  pub some_chars : 1 ≤ length call
  pub short : length call ≤ n
  pub tail : IsSuffix suffix

-- A caller may run the program of a route.
pub record IsAllowed (d : ServiceDispatcher) (r : ServiceRoute) (conn : Connection) : Type 0 where
  pub is_enabled : d.enabled_flag ≡ true
  pub mapped : get d.routes (called_of conn) ≡ some r
  pub valid : IsCaller 6 (caller_of conn)
  pub welcome : ¬ IsKey d.lockout (caller_of conn)
  pub welcome_base : ¬ IsKey d.lockout (before_dash (caller_of conn))
  pub near : (r.no_digi ≡ false) ⊎ (conn.hop_count ≡ 0)
  pub trusted : (r.min_auth ≡ anonymous) ⊎ (r.min_auth ≡ identified)

is_ssid-IsSuffix : (s : Text) → is_ssid s ≡ true → IsSuffix s
is_ssid-IsSuffix [] h = bare
is_ssid-IsSuffix (c ∷ []) h = absurd (cc h)
is_ssid-IsSuffix (c ∷ d ∷ []) h =
    let dash : c ≡ 45 = ground (arith, h) in rw dash (one d (ground (arith, h)))
is_ssid-IsSuffix (c ∷ d ∷ e ∷ []) h =
    let dash : c ≡ 45 = ground (arith, h) in
    rw dash (two d e (ground (arith, h)) (ground (arith, h)))
is_ssid-IsSuffix (c ∷ d ∷ e ∷ f ∷ s) h = absurd (cc h)

IsSuffix-is_ssid : {s : Text} → IsSuffix s → is_ssid s ≡ true
IsSuffix-is_ssid bare = refl
IsSuffix-is_ssid (one d h) = ground (arith, h)
IsSuffix-is_ssid (two d e h k) = ground (arith, h, k)

is_call-IsCaller : (n : ℕ) (s : Text) → is_call n s ≡ true → IsCaller n s
is_call-IsCaller zero s h = absurd (cc h)
is_call-IsCaller (suc n) [] h = absurd (cc h)
is_call-IsCaller (suc n) (c ∷ s) h = elim (Bool-cases (is_ssid s)) [
  | inl e ↦ record {
    call = c ∷ [];
    suffix = s;
    split = refl;
    chars = (ground (arith, h), tt);
    some_chars = omega arith;
    short = omega arith;
    tail = is_ssid-IsSuffix s e;
  }
  | inr e ↦
      let v = is_call-IsCaller n s (ground (arith, e, h)) in
      record {
        call = c ∷ v.call;
        suffix = v.suffix;
        split = ap (◌∷◌ c) v.split;
        chars = (ground (arith, h), v.chars);
        some_chars = omega arith;
        short = omega (arith, v.short);
        tail = v.tail;
      }
]

is_call-append :
    (n : ℕ) (call suffix : Text)
    → CallChars call
    → 1 ≤ length call
    → length call ≤ n
    → IsSuffix suffix
    → is_call n (call ++ suffix) ≡ true
is_call-append n [] suffix h l k t = absurd (omega (arith, l))
is_call-append zero (c ∷ call) suffix h l k t = absurd (omega (arith, k))
is_call-append (suc n) (c ∷ []) suffix (h, hs) l k t = ground (arith, h, IsSuffix-is_ssid t)
is_call-append (suc n) (c ∷ d ∷ call) suffix (h, hs) l k t =
    ground (arith, h, is_call-append n (d ∷ call) suffix hs (omega arith) (omega (arith, k)) t)

pub is_caller_iff : (s : Text) → (is_caller s ≡ true) ↔ IsCaller 6 s
unfolding is_caller
is_caller_iff s = (
  is_call-IsCaller 6 s,
  λ v. rw (v.split) (is_call-append 6 v.call v.suffix v.chars v.some_chars v.short v.tail),
)

pub welcome_iff :
    (d : ServiceDispatcher) (caller : Text)
    → (is_locked_out d caller ≡ false)
      ↔ (¬ (IsKey d.lockout caller ⊎ IsKey d.lockout (before_dash caller)))
unfolding is_locked_out
welcome_iff d caller = false_iff (has d.lockout caller || has d.lockout (before_dash caller)) (
    or_iff (has d.lockout caller) (has d.lockout (before_dash caller)) (has-IsKey d.lockout caller)
      (has-IsKey d.lockout (before_dash caller)))

pub near_iff :
    (no_digi : Bool) (n : ℕ) → (no_digi && ltb 0 n ≡ false) ↔ ((no_digi ≡ false) ⊎ (n ≡ 0))
near_iff false n = (λ h. inl refl, λ h. refl)
near_iff true zero = (λ h. inr refl, λ h. refl)
near_iff true (suc n) = (
  λ h. absurd (ground (arith, h)),
  λ h. elim h [ inl e ↦ absurd (cc e) | inr e ↦ absurd (omega (arith, e)) ],
)

pub trusted_iff :
    (l : AuthLevel) → (level_lt identified l ≡ false) ↔ ((l ≡ anonymous) ⊎ (l ≡ identified))
trusted_iff anonymous = (λ h. inl refl, λ h. refl)
trusted_iff identified = (λ h. inr refl, λ h. refl)
trusted_iff authenticated =
    (λ h. absurd (cc h), λ h. elim h [ inl e ↦ absurd (cc e) | inr e ↦ absurd (cc e) ])
trusted_iff sysop =
    (λ h. absurd (cc h), λ h. elim h [ inl e ↦ absurd (cc e) | inr e ↦ absurd (cc e) ])

mapped_some :
    (routes : Dict Text ServiceRoute) (k : Text) {r : ServiceRoute}
    → get routes k ≡ some r
    → is_empty routes ≡ false
unfolding get
mapped_some [] k p = absurd (cc p)
mapped_some (x ∷ routes) k p = refl

pub enabled-mapped :
    (d : ServiceDispatcher) (k : Text) {r : ServiceRoute}
    → d.enabled_flag ≡ true
    → get d.routes k ≡ some r
    → enabled d ≡ true
unfolding enabled
enabled-mapped d k h p = ground (arith, h, mapped_some d.routes k p)
