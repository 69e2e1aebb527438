-- ===== src/Services/Dispatcher/Argv.antt =====
-- The argument vector of an external program, from bbs/services/dispatcher.py.
use bbs.Prelude.{
  ℕ, ◌||◌, List, [], ◌∷◌, ◌++◌, map, Option, none, some, ◌==◌, if◌then◌else◌, nat_eq, list_eq,
}
use bbs.Text.{Text, upper, strip, before_dash}
use bbs.Services.Dispatcher.{ServiceRoute, Connection, lower}

-- A token of `subst`, by the character behind the percent sign.
unfoldable pub subst_token : Text → Text → ℕ → Option Text
subst_token caller label c =
    if c == 117
    then some (lower (before_dash caller))
    else if c == 85
    then some (upper (before_dash caller))
    else if c == 115
    then some (lower caller)
    else if c == 83
    then some (upper caller)
    else if c == 100
    then some label
    else if c == 112 || (c == 80 || (c == 114 || c == 82))
    then some []
    else if c == 37
    then some (37 ∷ [])
    else none

abbrev substituted : ℕ → Option Text → Text → Text → Text
substituted c (some t) rest literal = t ++ rest
substituted c none rest literal = literal

-- _SUBST_RE.sub, from left to right: a percent sign with no token behind it stays.
unfoldable pub expand : Text → Text → Text → Text
expand caller label [] = []
expand caller label (c ∷ []) = c ∷ []
expand caller label (c ∷ d ∷ s) =
    let behind = expand caller label s in
    let next = expand caller label (d ∷ s) in
    if c == 37 then substituted d (subst_token caller label d) behind (c ∷ next) else c ∷ next

abbrev or_id : Text → Text → Text
or_id [] id = id
or_id (c ∷ s) id = c ∷ s

unfoldable pub build_argv : ServiceRoute → Connection → Text → List Text
build_argv r conn port =
    map (expand (strip (upper conn.remote_addr)) (or_id port conn.transport_id)) r.args
