-- ===== src/Services/Dispatcher/Routes.antt =====
-- The routes that the dispatcher holds.
use bbs.Prelude.{
  ◌≡◌, refl, ap, true, List, [], ◌∷◌, Option, none, some, ◌=?◌, nat_eq, list_eq, list_beq_iff,
  arith, ◌≢◌, inl, inr, Bool-cases,
}
use bbs.Text.{Text, strip}
use bbs.Dict.{Dict, get}
use bbs.Dict.Laws.{get-put}
use bbs.Services.Dispatcher.{
  ServiceRoute, ServicesConfig, RouteSpec, parse_route, parse_routes, reload, is_abs, text_or,
  argv_of, add_route,
}

-- A route that a configuration may put into the table, under its key.
pub record IsRoute (key : Text) (r : ServiceRoute) : Type 0 where
  pub key_called : key ≡ r.called
  pub absolute : is_abs r.exec_path ≡ true
  pub has_argv : r.args ≢ []

abbrev AllRoutes : Dict Text ServiceRoute → Type 0
AllRoutes routes = (key : Text) (r : ServiceRoute) → get routes key ≡ some r → IsRoute key r

argv_some : (path : Text) (args : List Text) → argv_of path args ≢ []
argv_some path [] = λ p. cc
argv_some path (a ∷ args) = λ p. cc

parse_route-IsRoute :
    (called : Text) (spec : RouteSpec) {r : ServiceRoute}
    → parse_route called spec ≡ some r
    → IsRoute r.called r
unfolding parse_route
parse_route-IsRoute called spec {r} p =
    let path : Text = strip (text_or [] spec.exec_path) in
    record {
      key_called = refl;
      absolute = ground arith;
      has_argv = ground (arith, argv_some path spec.args);
    }

add_route-AllRoutes :
    (o : Option ServiceRoute) (routes : Dict Text ServiceRoute)
    → ((r : ServiceRoute) → o ≡ some r → IsRoute r.called r)
    → AllRoutes routes
    → AllRoutes (add_route o routes)
add_route-AllRoutes none routes h v key s p = v key s p
add_route-AllRoutes (some r) routes h v key s p = elim (Bool-cases (r.called =? key)) [
  | inl e ↦
      let k : r.called ≡ key = (list_beq_iff r.called key).0 e in
      let same : r ≡ s = ground (arith, get-put routes r.called key r) in
      rw (← k) (rw same (h s (ap some same)))
  | inr e ↦ v key s (ground (arith, get-put routes r.called key r))
]

parse_routes-AllRoutes :
    (specs : List (Text × RouteSpec)) (routes : Dict Text ServiceRoute)
    → AllRoutes routes
    → AllRoutes (parse_routes specs routes)
unfolding parse_routes
parse_routes-AllRoutes [] routes v = v
parse_routes-AllRoutes ((called, spec) ∷ more) routes v =
    parse_routes-AllRoutes more (add_route (parse_route called spec) routes) (
      add_route-AllRoutes (parse_route called spec) routes
        (λ r p. parse_route-IsRoute called spec p) v)

-- A configuration yields routes with an absolute program and an argument vector, under their names.
pub reload-IsRoute :
    (cfg : ServicesConfig) (key : Text) (r : ServiceRoute)
    → get (reload cfg).routes key ≡ some r
    → IsRoute key r
unfolding reload get
reload-IsRoute cfg key r p = parse_routes-AllRoutes cfg.routes [] (λ k s q. cc) key r p
