-- ===== src/Netrom/Node.antt =====
-- bbs/netrom/node.py: the node prompt. The children model the relay of a gateway session and the
-- command CONNECT.
pub mod Relay
pub mod Connect
mod Tests
use bbs.Prelude.{
  ℕ, Bool, true, false, List, [], ◌∷◌, Option, none, some, if◌then◌else◌, ◌=?◌, nat_eq, list_eq,
}
use bbs.Text.{Text, codes, upper, starts_with}

-- The handlers of the command table.
pub data Handler : Type 0 where
  connect local_bbs nodes routes users info mheard ports bye help : Handler

abbrev pub command_table : List (Text × Handler)
command_table =
    (codes "CONNECT", connect)
    ∷ (codes "BBS", local_bbs)
    ∷ (codes "NODES", nodes)
    ∷ (codes "ROUTES", routes)
    ∷ (codes "USERS", users)
    ∷ (codes "INFO", info)
    ∷ (codes "MHEARD", mheard)
    ∷ (codes "PORTS", ports)
    ∷ (codes "BYE", bye)
    ∷ (codes "HELP", help)
    ∷ []

abbrev pub command_aliases : List (Text × Text)
command_aliases =
    (codes "MH", codes "MHEARD")
    ∷ (codes "?", codes "HELP")
    ∷ (codes "H", codes "HELP")
    ∷ (codes "Q", codes "BYE")
    ∷ (codes "QUIT", codes "BYE")
    ∷ (codes "B", codes "BYE")
    ∷ []

unfoldable pub alias_of : List (Text × Text) → Text → Option Text
alias_of [] verb = none
alias_of ((a, name) ∷ rows) verb =
    let rest = alias_of rows verb in if a =? verb then some name else rest

-- next(c for c in _COMMANDS if c[0] == name); every alias has its command.
unfoldable pub named : List (Text × Handler) → Text → Option Handler
named [] name = none
named ((n, h) ∷ cs) name = let rest = named cs name in if n =? name then some h else rest

unfoldable pub abbreviated : List (Text × Handler) → Text → List (Text × Handler)
abbreviated [] verb = []
abbreviated ((n, h) ∷ cs) verb =
    let rest = abbreviated cs verb in if starts_with verb n then (n, h) ∷ rest else rest

abbrev pub only_one : List (Text × Handler) → Option Handler
only_one [] = none
only_one ((n, h) ∷ []) = some h
only_one (c ∷ d ∷ cs) = none

-- An alias wins; else the verb begins the name of exactly one command.
unfoldable pub resolve : Text → Option Handler
resolve verb = elim (alias_of command_aliases (upper verb)) [
  | some name ↦ named command_table name
  | none ↦ only_one (abbreviated command_table (upper verb))
]
