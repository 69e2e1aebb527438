-- ===== src/Netrom/Gateway/Gates.antt =====
-- The gates of the guard, against a description of a permitted attempt.
use bbs.Prelude.{
  ◌⊎◌, ℕ, ◌-◌, false_iff, or_iff, ◌≤◌, ◌<◌, ◌≡◌, refl, true, false, ◌||◌, List, [], ◌∷◌, ◌++◌,
  Option, none, some, length, arith, length-drop, ◌↔◌, nat_eq, list_eq,
}
use bbs.Text.{Text}
use bbs.Dict.{get, is_empty}
use bbs.Core.Auth.{level_lt}
use bbs.Netrom.Gateway.{
  GatewayGuard, Attempt, norm, base, check, rate_exceeded, prune, pruned, judged, is_listed,
  interlocks, level_of, note_refusal, refusal_history,
}
use bbs.Netrom.Gateway.Permitted.{
  Names, recent-window, window, stem, recent, Ascending, times_of, IsPermitted, is_listed_iff,
  is_empty_iff, level_iff, window-recent, rate_iff, onward_iff,
}

-- The gates as `check` tests them.
record Passes (now : ℕ) (a : Attempt) (g : GatewayGuard) : Type 0 where
  not_denied : is_listed g.policy.deny a.user_call ≡ false
  allowed : is_empty g.policy.allow || is_listed g.policy.allow a.user_call ≡ true
  level : level_lt (level_of a.auth_level) g.policy.min_auth ≡ false
  rate :
      0 < g.policy.rate_limit_per_min
      → length (window (get g.rate (base a.user_call)) now) < g.policy.rate_limit_per_min
  no_interlock : interlocks g.policy a ≡ false

pruned_lt :
    (b : Text) (ts : List ℕ) (g : GatewayGuard)
    → 0 < g.policy.rate_limit_per_min
    → ((pruned b ts g).0 ≡ false) ↔ (length ts < g.policy.rate_limit_per_min)
unfolding pruned
pruned_lt b [] g h = (λ p. h, λ p. refl)
pruned_lt b (t ∷ ts) g h = ground arith

judged_lt :
    (now : ℕ) (b : Text) (g : GatewayGuard) (o : Option (List ℕ))
    → 0 < g.policy.rate_limit_per_min
    → ((judged now b g o).0 ≡ false) ↔ (length (window o now) < g.policy.rate_limit_per_min)
judged_lt now b g none h = (λ p. h, λ p. refl)
judged_lt now b g (some []) h = unfold prune in (λ p. h, λ p. refl)
judged_lt now b g (some (t ∷ ts)) h = pruned_lt b (prune now (t ∷ ts)) g h

exceeded_lt :
    (now : ℕ) (b : Text) (g : GatewayGuard)
    → 0 < g.policy.rate_limit_per_min
    → ((rate_exceeded now b g).0 ≡ false)
      ↔ (length (window (get g.rate b) now) < g.policy.rate_limit_per_min)
unfolding rate_exceeded
exceeded_lt now b g h = judged_lt now b g (get g.rate b) h

check-Passes :
    (now : ℕ) (a : Attempt) (g : GatewayGuard) → ((check now a g).0 ≡ none) ↔ Passes now a g
unfolding check
check-Passes now a g = (
  λ h. record {
    not_denied = ground arith;
    allowed = ground arith;
    level = ground arith;
    rate = λ on. ground (arith, exceeded_lt now (base a.user_call) g on);
    no_interlock = ground arith;
  },
  λ v.
      let d = v.not_denied in
      let e = v.allowed in
      let l = v.level in
      let i = v.no_interlock in
      ground (arith, d, e, l, i, v.rate, exceeded_lt now (base a.user_call) g),
)

module _ (now : ℕ) (a : Attempt) (g : GatewayGuard) where
  denied : (is_listed g.policy.deny a.user_call ≡ false) ↔ (¬ Names g.policy.deny a.user_call)
  denied = false_iff (is_listed g.policy.deny a.user_call) (is_listed_iff g.policy.deny a.user_call)

  allows :
      (is_empty g.policy.allow || is_listed g.policy.allow a.user_call ≡ true)
      ↔ ((g.policy.allow ≡ []) ⊎ Names g.policy.allow a.user_call)
  allows =
      or_iff (is_empty g.policy.allow) (is_listed g.policy.allow a.user_call)
        (is_empty_iff g.policy.allow) (is_listed_iff g.policy.allow a.user_call)

  Passes-IsPermitted : Passes now a g → IsPermitted now a g
  unfolding base norm
  Passes-IsPermitted v =
      let fewer = recent-window now (get g.rate (stem a.user_call)) in
      record {
        not_denied = denied.0 v.not_denied;
        allowed = allows.0 v.allowed;
        trusted = (level_iff a.auth_level g.policy.min_auth).0 v.level;
        rate =
            (rate_iff (recent now (times_of a g)) g.policy.rate_limit_per_min).0
              (λ on. omega (arith, fewer, v.rate on));
        no_return = (onward_iff g.policy a).0 v.no_interlock;
      }

  IsPermitted-Passes : Ascending (times_of a g) → IsPermitted now a g → Passes now a g
  unfolding base norm
  IsPermitted-Passes order v =
      let same = window-recent now (get g.rate (stem a.user_call)) order in
      record {
        not_denied = denied.1 v.not_denied;
        allowed = allows.1 v.allowed;
        level = (level_iff a.auth_level g.policy.min_auth).1 v.trusted;
        rate = λ on.
            rw same
              ((rate_iff (recent now (times_of a g)) g.policy.rate_limit_per_min).1 v.rate on);
        no_interlock = (onward_iff g.policy a).1 v.no_return;
      }

  -- What passes is permitted, in whatever order the times are.
  pub passed-IsPermitted : (check now a g).0 ≡ none → IsPermitted now a g
  passed-IsPermitted h = Passes-IsPermitted ((check-Passes now a g).0 h)

-- With the connects of the caller in the order of time, the guard passes an attempt exactly if it
-- is permitted: the caller or its base call is not denied, and is allowed where an allow-list is
-- set; its level, identified if it has none, reaches the required one; fewer connects than the
-- rate limit, where one is set, are at most 60 seconds old; and with the interlock the neighbour
-- is not the node that the caller came by.
pub check-IsPermitted :
    (now : ℕ) (a : Attempt) (g : GatewayGuard)
    → Ascending (times_of a g)
    → ((check now a g).0 ≡ none) ↔ IsPermitted now a g
check-IsPermitted now a g order =
    (passed-IsPermitted now a g, λ v. (check-Passes now a g).1 (IsPermitted-Passes now a g order v))

-- The ring of refusals holds at most fifty.
pub note_refusal-length :
    (now : ℕ) (u r d : Text) (g : GatewayGuard)
    → length (note_refusal now u r d g).refusals ≤ refusal_history
unfolding note_refusal
note_refusal-length now u r d g =
    omega
      (arith, length-drop (length (g.refusals ++ _ ∷ []) - refusal_history) (g.refusals ++ _ ∷ []))
