-- ===== src/Services/Dispatcher/Tests.antt =====
-- Runs of the dispatcher of external services.
use bbs.Prelude.{◌≡◌, refl, true, false, [], ◌∷◌, none, some, ◌↔◌, nat_eq, list_eq}
use bbs.Text.{codes, strip, rstrip, lstrip, before_dash}
use bbs.Core.Auth.{identified}
use bbs.Services.Dispatcher.{
  ServicesConfig, RouteSpec, ServiceRoute, Connection, exec, match_, reload,
}
use bbs.Services.Dispatcher.Argv.{build_argv, expand, subst_token}
use bbs.Services.Dispatcher.Allowed.{IsAllowed}
use bbs.Services.Dispatcher.Decisions.{match-exec}

abbrev spec : RouteSpec
spec = record {
  exec_path = some (codes "/usr/bin/xfbbd");
  args = codes "xfbbd" ∷ codes "%U" ∷ [];
  min_auth = none;
  no_digi = true;
  quiet = false;
  crlf = false;
  idle_timeout = 600;
  env = [];
}

abbrev config : ServicesConfig
config = record {
  enabled = none;
  max_sessions = none;
  lockout = codes "nocall" ∷ [];
  routes = (codes "w6ela-2", spec) ∷ [];
}

abbrev route : ServiceRoute
route = record {
  called = codes "W6ELA-2";
  exec_path = codes "/usr/bin/xfbbd";
  args = codes "xfbbd" ∷ codes "%U" ∷ [];
  min_auth = identified;
  no_digi = true;
  quiet = false;
  crlf = false;
  idle_timeout = 600;
  env = [];
}

abbrev conn : Connection
conn = record {
  local_addr = codes "W6ELA-2";
  remote_addr = codes "k6fb-1";
  hop_count = 0;
  transport_id = codes "kiss";
}

match-exec_example :
    (((match_ (reload config) conn).action ≡ exec)
      × ((match_ (reload config) conn).route ≡ some route))
    ↔ IsAllowed (reload config) route conn
match-exec_example = match-exec (reload config) conn route

-- The caller without its SSID, in upper case, is the second argument.
argv_run : build_argv route conn [] ≡ codes "xfbbd" ∷ codes "K6FB" ∷ []
unfolding build_argv expand subst_token strip rstrip lstrip before_dash
argv_run = refl
