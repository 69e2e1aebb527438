-- ===== src/Netrom/Node/Connect/Accounts.antt =====
-- The circuits that the guard has in use, over its gates and over a slot that is taken and freed.
use bbs.Prelude.{
  ℕ, ◌+◌, ◌-◌, true, false, ◌≡◌, refl, ap, ◌∙◌, List, [], ◌∷◌, Option, none, some, arith, nat_eq,
  list_eq, list_beq_iff, beq_refl,
}
use bbs.Text.{Text}
use bbs.Dict.{get, put}
use bbs.Dict.Laws.{get-put, get-remove}
use bbs.Dict.Totals.{get_or_zero}
use bbs.Netrom.Gateway.{
  GatewayGuard, Attempt, base, check, rate_exceeded, judged, pruned, prune, acquire, release,
}

-- Two guards with the same circuits in use.
pub record SameAccounts (g h : GatewayGuard) : Type 0 where
  pub total : h.active_total ≡ g.active_total
  pub per_user :
      (b : Text) → get_or_zero (get h.active_per_user b) ≡ get_or_zero (get g.active_per_user b)

pub SameAccounts-refl : (g : GatewayGuard) → SameAccounts g g
SameAccounts-refl g = record { total = refl; per_user = λ b. refl }

pub SameAccounts-trans :
    (g h k : GatewayGuard) → SameAccounts g h → SameAccounts h k → SameAccounts g k
SameAccounts-trans g h k p q = record {
  total = q.total ∙ p.total;
  per_user = λ b. q.per_user b ∙ p.per_user b;
}

-- The rate window is apart from the accounts.
abbrev SameCounts : GatewayGuard → GatewayGuard → Type 0
SameCounts g h = (h.active_total ≡ g.active_total) × (h.active_per_user ≡ g.active_per_user)

pruned-SameCounts : (b : Text) (ts : List ℕ) (g : GatewayGuard) → SameCounts g (pruned b ts g).1
unfolding pruned
pruned-SameCounts b [] g = (refl, refl)
pruned-SameCounts b (t ∷ ts) g = (refl, refl)

judged-SameCounts :
    (now : ℕ) (b : Text) (g : GatewayGuard) (o : Option (List ℕ))
    → SameCounts g (judged now b g o).1
judged-SameCounts now b g none = (refl, refl)
judged-SameCounts now b g (some []) = (refl, refl)
judged-SameCounts now b g (some (t ∷ ts)) = pruned-SameCounts b (prune now (t ∷ ts)) g

rate_exceeded-SameCounts :
    (now : ℕ) (b : Text) (g : GatewayGuard) → SameCounts g (rate_exceeded now b g).1
unfolding rate_exceeded
rate_exceeded-SameCounts now b g = judged-SameCounts now b g (get g.rate b)

check-SameCounts : (now : ℕ) (a : Attempt) (g : GatewayGuard) → SameCounts g (check now a g).1
unfolding check
check-SameCounts now a g =
    let same = rate_exceeded-SameCounts now (base a.user_call) g in
    (ground (arith, same.0), ground (arith, same.1))

pub check-SameAccounts :
    (now : ℕ) (a : Attempt) (g : GatewayGuard) → SameAccounts g (check now a g).1
check-SameAccounts now a g =
    let same = check-SameCounts now a g in
    record { total = same.0; per_user = λ b. ap (λ d. get_or_zero (get d b)) same.1 }

-- A slot that is taken.
acquire-counts :
    (now : ℕ) (user : Text) (g : GatewayGuard)
    → (acquire now user g).0 ≡ true
    → ((acquire now user g).1.active_total ≡ g.active_total + 1)
      × ((acquire now user g).1.active_per_user
          ≡ put g.active_per_user (base user) (get_or_zero (get g.active_per_user (base user)) + 1))
unfolding acquire
acquire-counts now user g h = (ground (arith, h), ground (arith, h))

pub acquire-refused :
    (now : ℕ) (user : Text) (g : GatewayGuard)
    → (acquire now user g).0 ≡ false
    → (acquire now user g).1 ≡ g
unfolding acquire
acquire-refused now user g h = ground (arith, h)

-- A slot that was taken and freed again.
pub release-acquire :
    (now : ℕ) (user : Text) (g : GatewayGuard)
    → (acquire now user g).0 ≡ true
    → SameAccounts g (release user (acquire now user g).1)
unfolding release
release-acquire now user g h =
    let b : Text = base user in
    let n : ℕ = get_or_zero (get g.active_per_user b) in
    let (total, users) = acquire-counts now user g h in
    record {
      total = omega (arith, total);
      per_user = λ c. rw users (
          ground (
            arith,
            list_beq_iff b c,
            get-put g.active_per_user b b (n + 1),
            beq_refl b,
            get-put (put g.active_per_user b (n + 1)) b c (n + 1 - 1),
            get-put g.active_per_user b c (n + 1),
            get-remove (put g.active_per_user b (n + 1)) b c,
          ));
    }
