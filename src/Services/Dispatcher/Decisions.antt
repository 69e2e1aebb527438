-- ===== src/Services/Dispatcher/Decisions.antt =====
-- What the dispatcher decides.
use bbs.Prelude.{
  ℕ, ◌≡◌, true, false, ◌&&◌, some, ltb, nat_eq, list_eq, arith, ◌↔◌, Option-cases, inl, inr,
  Bool-cases,
}
use bbs.Text.{Text}
use bbs.Dict.{get}
use bbs.Core.Auth.{identified, level_lt}
use bbs.Services.Dispatcher.{
  ServiceRoute, ServiceDispatcher, Connection, exec, is_caller, is_locked_out, admit, match_,
  enabled,
}
use bbs.Services.Dispatcher.Allowed.{
  caller_of, called_of, IsAllowed, is_caller_iff, welcome_iff, near_iff, trusted_iff,
  enabled-mapped,
}

-- The tests of `match_` on a route.
record Passes (d : ServiceDispatcher) (r : ServiceRoute) (conn : Connection) : Type 0 where
  is_enabled : enabled d ≡ true
  mapped : get d.routes (called_of conn) ≡ some r
  valid : is_caller (caller_of conn) ≡ true
  welcome : is_locked_out d (caller_of conn) ≡ false
  near : r.no_digi && ltb 0 conn.hop_count ≡ false
  trusted : level_lt identified r.min_auth ≡ false

admit-exec :
    (d : ServiceDispatcher) (r s : ServiceRoute) (caller : Text) (hops : ℕ)
    → (admit d r caller hops).action ≡ exec
    → (admit d r caller hops).route ≡ some s
    → (is_caller caller ≡ true)
      × (is_locked_out d caller ≡ false)
      × (r.no_digi && ltb 0 hops ≡ false)
      × (level_lt identified r.min_auth ≡ false)
      × (r ≡ s)
unfolding admit
admit-exec d r s caller hops p q = ground arith

exec-admit :
    (d : ServiceDispatcher) (r : ServiceRoute) (caller : Text) (hops : ℕ)
    → is_caller caller ≡ true
    → is_locked_out d caller ≡ false
    → r.no_digi && ltb 0 hops ≡ false
    → level_lt identified r.min_auth ≡ false
    → ((admit d r caller hops).action ≡ exec) × ((admit d r caller hops).route ≡ some r)
unfolding admit
exec-admit d r caller hops a b c e = ground arith

exec-Passes :
    (d : ServiceDispatcher) (conn : Connection) (r : ServiceRoute)
    → (match_ d conn).action ≡ exec
    → (match_ d conn).route ≡ some r
    → Passes d r conn
unfolding match_
exec-Passes d conn r p q = elim (Bool-cases (enabled d)) [
  | inr e ↦ absurd (ground arith)
  | inl e ↦ elim (Option-cases (get d.routes (called_of conn))) [
    | inl f ↦ absurd (ground arith)
    | inr (s, f) ↦
        let (valid, welcome, near, trusted, same) =
          admit-exec d s r (caller_of conn) conn.hop_count (ground arith) (ground arith) in
        record {
          is_enabled = e;
          mapped = cc;
          valid = valid;
          welcome = welcome;
          near = ground arith;
          trusted = ground arith;
        }
  ]
]

Passes-exec :
    (d : ServiceDispatcher) (conn : Connection) (r : ServiceRoute)
    → Passes d r conn
    → ((match_ d conn).action ≡ exec) × ((match_ d conn).route ≡ some r)
unfolding match_
Passes-exec d conn r v = rw (v.is_enabled) (
    rw (v.mapped)
      (exec-admit d r (caller_of conn) conn.hop_count v.valid v.welcome v.near v.trusted))

Passes-IsAllowed :
    (d : ServiceDispatcher) (r : ServiceRoute) (conn : Connection)
    → Passes d r conn ↔ IsAllowed d r conn
Passes-IsAllowed d r conn =
    let caller : Text = caller_of conn in
    let (in_form, form) = is_caller_iff caller in
    let (clear, welcome) = welcome_iff d caller in
    let (direct, near) = near_iff r.no_digi conn.hop_count in
    let (low, trusted) = trusted_iff r.min_auth in
    (
      λ v. record {
        is_enabled = unfold enabled in ground (arith, v.is_enabled);
        mapped = v.mapped;
        valid = in_form v.valid;
        welcome = λ p. clear v.welcome (inl p);
        welcome_base = λ p. clear v.welcome (inr p);
        near = direct v.near;
        trusted = low v.trusted;
      },
      λ v. record {
        is_enabled = enabled-mapped d (called_of conn) v.is_enabled v.mapped;
        mapped = v.mapped;
        valid = form v.valid;
        welcome = welcome (λ q. elim q [ inl p ↦ v.welcome p | inr p ↦ v.welcome_base p ]);
        near = near v.near;
        trusted = trusted v.trusted;
      },
    )

-- The dispatcher runs the program of a route exactly if it is enabled, the called address is
-- mapped to that route, the caller is a callsign of one to six capitals and digits with an SSID of
-- one or two digits that may be left out, neither the caller nor its base call is locked out, the
-- caller comes without digipeaters where the route asks for it, and the route needs at most
-- identification.
pub match-exec :
    (d : ServiceDispatcher) (conn : Connection) (r : ServiceRoute)
    → (((match_ d conn).action ≡ exec) × ((match_ d conn).route ≡ some r)) ↔ IsAllowed d r conn
match-exec d conn r =
    let (f, g) = Passes-IsAllowed d r conn in
    (λ h. f (exec-Passes d conn r h.0 h.1), λ v. Passes-exec d conn r (g v))
