-- ===== src/Netrom/Router/NextHop.antt =====
-- The choice of the next hop, against the routing table.
use bbs.Prelude.{
  ℕ, ◌≤◌, ◌≡◌, refl, Bool, true, false, ◌&&◌, List, [], ◌∷◌, Option, none, some, if◌then◌else◌,
  arith, ◌⊎◌, inl, inr, Option-cases,
}
use bbs.Text.{Text, upper}
use bbs.Netrom.Router.{RouteEntry, NetromRouter, is_routable_callsign}
use bbs.Netrom.Router.Lookup.{
  get_routes, is_direct_neighbor, usable_routes, first_reachable, chosen, dest_of,
  best_neighbor_for,
}

-- A route of the list that satisfies the minimum and leads through the neighbour.
abbrev pub HasRoute : ℕ → Text → List RouteEntry → Type 0
HasRoute q c [] = ⊥
HasRoute q c (r ∷ b) = ((q ≤ r.quality) × (upper r.via_call ≡ c)) ⊎ HasRoute q c b

-- The routes that satisfy the minimum lead through no neighbour in reach.
abbrev pub NoneReachable : ℕ → ℕ → NetromRouter → List RouteEntry → Type 0
NoneReachable q now g [] = Unit
NoneReachable q now g (r ∷ b) =
    (q ≤ r.quality → is_direct_neighbor r.via_call now g ≡ false) × NoneReachable q now g b

first_reachable-some :
    (q now : ℕ) (g : NetromRouter) (b : List RouteEntry) {r : RouteEntry}
    → first_reachable now g (usable_routes q b) ≡ some r
    → HasRoute q (upper r.via_call) b × (is_direct_neighbor r.via_call now g ≡ true)
unfolding first_reachable usable_routes
first_reachable-some q now g [] p = cc
first_reachable-some q now g (s ∷ b) {r} p = ground (arith, first_reachable-some q now g b {r = r})

first_reachable-none :
    (q now : ℕ) (g : NetromRouter) (b : List RouteEntry)
    → first_reachable now g (usable_routes q b) ≡ none
    → NoneReachable q now g b
unfolding first_reachable usable_routes
first_reachable-none q now g [] p = tt
first_reachable-none q now g (s ∷ b) p = ground (arith, first_reachable-none q now g b)

chosen_fallback :
    (q : ℕ) (b : List RouteEntry) {c : Text}
    → chosen none (usable_routes q b) ≡ some c
    → HasRoute q c b
unfolding usable_routes
chosen_fallback q [] p = cc
chosen_fallback q (r ∷ b) {c} p = ground (arith, chosen_fallback q b {c = c})

-- What a next hop may be: the destination, a direct first hop, or a first hop when none is direct.
pub data IsNextHop (dest : Text) (q now : ℕ) (g : NetromRouter) (c : Text) : Type 0 where
  at_once :
      c ≡ dest_of dest (get_routes dest g)
      → is_direct_neighbor (dest_of dest (get_routes dest g)) now g ≡ true
      → IsNextHop dest q now g c
  through :
      (via : Text)
      → c ≡ upper via
      → is_direct_neighbor via now g ≡ true
      → HasRoute q (upper via) (get_routes dest g)
      → IsNextHop dest q now g c
  best_effort :
      HasRoute q c (get_routes dest g)
      → NoneReachable q now g (get_routes dest g)
      → IsNextHop dest q now g c

chosen-IsNextHop :
    (dest : Text) (q now : ℕ) (g : NetromRouter) (c : Text)
    → chosen
        (first_reachable now g (usable_routes q (get_routes dest g)))
        (usable_routes q (get_routes dest g))
      ≡ some c
    → IsNextHop dest q now g c
chosen-IsNextHop dest q now g c p =
    let routes = get_routes dest g in
    elim (Option-cases (first_reachable now g (usable_routes q routes))) [
      | inl e ↦
          best_effort (chosen_fallback q routes (rw (← e) p))
            (first_reachable-none q now g routes e)
      | inr (r, e) ↦
          let (has_route, direct) = first_reachable-some q now g routes e in
          through r.via_call (cc) direct has_route
    ]

if_some :
    (x y : Bool) (d : Text) (m : Option Text) {c : Text}
    → (if x && y then some d else m) ≡ some c
    → ((y ≡ true) × (c ≡ d)) ⊎ (m ≡ some c)
if_some true true d m p = inl (refl, cc)
if_some true false d m p = inr p
if_some false y d m p = inr p

-- A next hop that is chosen is the destination itself in reach, or the first hop of a route of at
-- least the minimum quality, which is in reach if any such hop is.
pub best_neighbor_for-IsNextHop :
    (dest : Text) (q now : ℕ) (g : NetromRouter) (c : Text)
    → best_neighbor_for dest q now g ≡ some c
    → IsNextHop dest q now g c
unfolding best_neighbor_for
best_neighbor_for-IsNextHop dest q now g c p =
    let routes = get_routes dest g in
    let d = dest_of dest routes in
    let usable = usable_routes q routes in
    elim (if_some (is_routable_callsign d) (is_direct_neighbor d now g) d
      (chosen (first_reachable now g usable) usable) p) [
        | inl (direct, e) ↦ at_once e direct
        | inr e ↦ chosen-IsNextHop dest q now g c e
      ]
