-- ===== src/Netrom/Gateway/Accounting.antt =====
-- The circuit accounting of the guard.
use bbs.Prelude.{ℕ, ◌+◌, ◌-◌, ◌≤◌, ◌≡◌, nat_eq, list_eq, arith}
use bbs.Text.{Text}
use bbs.Dict.{get}
use bbs.Dict.Laws.{get-put, get-remove}
use bbs.Dict.Totals.{
  get_or_zero, total, Distinct, Distinct-put, Distinct-remove, total-put, total-remove, le-total,
}
use bbs.Netrom.Gateway.{GatewayGuard, base, acquire, release}

-- The node-wide count is the sum of the users' counts, and no ceiling is passed.
pub record IsBalanced (g : GatewayGuard) : Type 0 where
  pub sum : g.active_total ≡ total g.active_per_user
  pub distinct : Distinct g.active_per_user
  pub node_cap : g.active_total ≤ g.policy.max_circuits
  pub user_cap : (b : Text) → get_or_zero (get g.active_per_user b) ≤ g.policy.max_circuits_per_user

-- Reserving a slot keeps the accounts balanced, whether it succeeds or not.
pub acquire-IsBalanced :
    (now : ℕ) (u : Text) (g : GatewayGuard) → IsBalanced g → IsBalanced (acquire now u g).1
unfolding acquire
acquire-IsBalanced now u g v =
    let b : Text = base u in
    let n : ℕ = get_or_zero (get g.active_per_user b) in
    record {
      sum = ground (arith, v.sum, total-put g.active_per_user b (n + 1));
      distinct = ground (arith, v.distinct, Distinct-put g.active_per_user b (n + 1) v.distinct);
      node_cap = ground (arith, v.node_cap);
      user_cap =
          λ c. ground (arith, v.user_cap c, v.user_cap b, get-put g.active_per_user b c (n + 1));
    }

-- Freeing a slot that the user holds keeps the accounts balanced.
pub release-IsBalanced :
    (u : Text) (g : GatewayGuard)
    → 1 ≤ get_or_zero (get g.active_per_user (base u))
    → IsBalanced g
    → IsBalanced (release u g)
unfolding release
release-IsBalanced u g held v =
    let b : Text = base u in
    let n : ℕ = get_or_zero (get g.active_per_user b) in
    record {
      sum = ground (
        arith,
        v.sum,
        total-put g.active_per_user b (n - 1),
        total-remove g.active_per_user b v.distinct,
        le-total g.active_per_user b,
      );
      distinct = ground (
        arith,
        Distinct-put g.active_per_user b (n - 1) v.distinct,
        Distinct-remove g.active_per_user b v.distinct,
      );
      node_cap = ground (arith, v.node_cap);
      user_cap = λ c. ground (
        arith,
        v.user_cap c,
        v.user_cap b,
        get-put g.active_per_user b c (n - 1),
        get-remove g.active_per_user b c,
      );
    }
