-- ===== src/Netrom/Gateway/Permitted.antt =====
-- A permitted attempt, and what each test of the guard decides.
use bbs.Prelude.{
  ℕ, zero, suc, ◌+◌, ◌≢◌, ◌⊎◌, inl, inr, Bool, leb, if◌then◌else◌, ◌=?◌, list_beq_iff, false_iff,
  or_iff, not, ◌&&◌, ◌==◌, ◌≤◌, ◌<◌, ◌≡◌, refl, true, false, List, [], ◌∷◌, Option, none, some,
  length, arith, ◌↔◌, nat_eq, list_eq,
}
use bbs.Text.{Text, upper, strip, before_dash}
use bbs.Dict.{Dict, get, has, is_empty}
use bbs.Dict.Keys.{IsKey, has-IsKey}
use bbs.Core.Auth.{AuthLevel, anonymous, identified, authenticated, sysop, level_lt, level_value}
use bbs.Netrom.Gateway.{
  GatewayGuard, GatewayPolicy, Attempt, norm, window_of, base, prune, is_listed, interlocks,
  level_of,
}

-- The connects of a caller within the last minute.
abbrev pub window : Option (List ℕ) → ℕ → List ℕ
window none now = []
window (some ts) now = prune now ts

-- A call in capitals, without blanks around it, and the same without its SSID.
abbrev pub cleaned : Text → Text
cleaned call = strip (upper call)

abbrev pub stem : Text → Text
stem call = before_dash (cleaned call)

-- A set has the call, or its base call.
abbrev pub Names : Dict Text (Unit {0}) → Text → Type 0
Names calls call = IsKey calls (cleaned call) ⊎ IsKey calls (stem call)

-- How much a level is trusted; a caller without one counts as identified.
abbrev pub rank : AuthLevel → ℕ
rank anonymous = 0
rank identified = 1
rank authenticated = 2
rank sysop = 3

abbrev pub rank_of : Option AuthLevel → ℕ
rank_of none = 1
rank_of (some level) = rank level

-- The times no more than 60 seconds ago.
abbrev pub recent : ℕ → List ℕ → ℕ
recent now [] = 0
recent now (t ∷ ts) = if leb now (t + 60000) then suc (recent now ts) else recent now ts

abbrev pub From : ℕ → List ℕ → Type 0
From t [] = Unit
From t (u ∷ ts) = (t ≤ u) × From t ts

-- Times as a clock that does not go back appends them.
abbrev pub Ascending : List ℕ → Type 0
Ascending [] = Unit
Ascending (t ∷ ts) = From t ts × Ascending ts

abbrev pub times_of : Attempt → GatewayGuard → List ℕ
times_of a g = window_of (get g.rate (stem a.user_call))

pub record IsPermitted (now : ℕ) (a : Attempt) (g : GatewayGuard) : Type 0 where
  pub not_denied : ¬ Names g.policy.deny a.user_call
  pub allowed : (g.policy.allow ≡ []) ⊎ Names g.policy.allow a.user_call
  pub trusted : rank g.policy.min_auth ≤ rank_of a.auth_level
  pub rate :
      (g.policy.rate_limit_per_min ≡ 0) ⊎ (recent now (times_of a g) < g.policy.rate_limit_per_min)
  pub no_return :
      (g.policy.interlock ≡ false)
      ⊎ ((a.arrival_via ≡ []) ⊎ (cleaned a.neighbor ≢ cleaned a.arrival_via))

pub is_listed_iff :
    (calls : Dict Text (Unit {0})) (call : Text) → (is_listed calls call ≡ true) ↔ Names calls call
unfolding is_listed norm base
is_listed_iff calls call =
    or_iff (has calls (cleaned call)) (has calls (stem call)) (has-IsKey calls (cleaned call))
      (has-IsKey calls (stem call))

pub is_empty_iff : (calls : Dict Text (Unit {0})) → (is_empty calls ≡ true) ↔ (calls ≡ [])
is_empty_iff [] = (λ h. refl, λ h. refl)
is_empty_iff (c ∷ calls) = (λ h. cc h, λ h. cc h)

level_rank : (o : Option AuthLevel) → level_value (level_of o) ≡ rank_of o
level_rank none = refl
level_rank (some anonymous) = refl
level_rank (some identified) = refl
level_rank (some authenticated) = refl
level_rank (some sysop) = refl

pub level_iff :
    (o : Option AuthLevel) (min : AuthLevel)
    → (level_lt (level_of o) min ≡ false) ↔ (rank min ≤ rank_of o)
level_iff o min = ground (arith, level_rank o, level_rank (some min))

recent-length : (now : ℕ) (ts : List ℕ) → recent now ts ≤ length ts
recent-length now [] = omega arith
recent-length now (t ∷ ts) = ground (arith, recent-length now ts)

all_recent : (now t : ℕ) (ts : List ℕ) → From t ts → now ≤ t + 60000 → recent now ts ≡ length ts
all_recent now t [] f h = refl
all_recent now t (u ∷ ts) (l, f) h = ground (arith, l, h, all_recent now t ts f h)

prune-recent : (now : ℕ) (ts : List ℕ) → Ascending ts → length (prune now ts) ≡ recent now ts
unfolding prune
prune-recent now [] h = refl
prune-recent now (t ∷ ts) (f, h) = ground (arith, prune-recent now ts h, all_recent now t ts f)

-- What is pruned is more than a minute old, in whatever order the times are.
recent-prune : (now : ℕ) (ts : List ℕ) → recent now ts ≤ length (prune now ts)
unfolding prune
recent-prune now [] = omega arith
recent-prune now (t ∷ ts) = ground (arith, recent-prune now ts, recent-length now ts)

pub recent-window :
    (now : ℕ) (o : Option (List ℕ)) → recent now (window_of o) ≤ length (window o now)
recent-window now none = omega arith
recent-window now (some ts) = recent-prune now ts

pub window-recent :
    (now : ℕ) (o : Option (List ℕ))
    → Ascending (window_of o)
    → length (window o now) ≡ recent now (window_of o)
window-recent now none h = refl
window-recent now (some ts) h = prune-recent now ts h

pub rate_iff : (n limit : ℕ) → (0 < limit → n < limit) ↔ ((limit ≡ 0) ⊎ (n < limit))
rate_iff n zero = (λ h. inl refl, λ h on. absurd (omega (arith, on)))
rate_iff n (suc limit) =
    (λ h. inr (h (omega arith)), λ h on. elim h [ inl e ↦ absurd (omega (arith, e)) | inr l ↦ l ])

onward_tests :
    (on : Bool) (via x y : Text)
    → (on && not (length via == 0) && x =? y ≡ false) ↔ ((on ≡ false) ⊎ ((via ≡ []) ⊎ (x ≢ y)))
onward_tests false via x y = (λ h. inl refl, λ h. refl)
onward_tests true [] x y = (λ h. inr (inl refl), λ h. refl)
onward_tests true (c ∷ via) x y =
    let (differ, other) = false_iff (x =? y) (list_beq_iff x y) in
    (
      λ h. inr (inr (differ (ground (arith, h)))),
      λ h. elim h [
        | inl e ↦ absurd (cc e)
        | inr (inl e) ↦ absurd (cc e)
        | inr (inr n) ↦ ground (arith, other n)
      ],
    )

pub onward_iff :
    (p : GatewayPolicy) (a : Attempt)
    → (interlocks p a ≡ false) ↔ (
        (p.interlock ≡ false)
        ⊎ ((a.arrival_via ≡ []) ⊎ (cleaned a.neighbor ≢ cleaned a.arrival_via)))
unfolding interlocks norm
onward_iff p a = onward_tests p.interlock a.arrival_via (cleaned a.neighbor) (cleaned a.arrival_via)
