-- ===== src/Plugins/Chat/History.antt =====
-- The scrollback of bbs/plugins/chat/chat.py: notices of joining and leaving are drawn together.
pub mod Compacted
use bbs.Prelude.{
  ℕ, Bool, true, false, ◌&&◌, ◌||◌, not, List, [], ◌∷◌, ◌++◌, Option, none, some, ◌>>=◌,
  if◌then◌else◌, length, ◌==◌, ◌=?◌, nat_eq, list_eq,
}
use mathlib.Core.List.{reverse}
use bbs.Text.{span_word, Text, codes, upper, is_space}

-- The rest of a text behind a prefix.
unfoldable pub strip_prefix : Text → Text → Option Text
strip_prefix [] s = some s
strip_prefix (c ∷ p) [] = none
strip_prefix (c ∷ p) (d ∷ s) = let rest = strip_prefix p s in if c =? d then rest else none

unfoldable pub drop_blanks : Text → Text
drop_blanks [] = []
drop_blanks (c ∷ s) = let rest = drop_blanks s in if c == 32 then rest else c ∷ s

abbrev pub or_try : Option Text → Option Text → Option Text
or_try (some s) o = some s
or_try none o = o

abbrev pub not_empty : Text → Bool
not_empty [] = false
not_empty (c ∷ s) = true

-- `.+ \*\*\* *$` on a line
unfoldable pub closes : Text → Bool
closes s = elim (strip_prefix (codes "*** ") (drop_blanks (reverse s))) [
  | none ↦ false
  | some r ↦ not_empty r
]

-- The callsign of a line that _JOIN_LEAVE_RE matches: `^\*\*\* (\S+) (?:joined|left) .+ \*\*\* *$`.
-- A word of `\S+` ends where the blank behind it stands.
unfoldable pub notice_call : Text → Option Text
notice_call line = strip_prefix (codes "*** ") line >>= (λ rest.
    let word : Text × Text = span_word rest in
    or_try (strip_prefix (codes " joined ") word.1) (strip_prefix (codes " left ") word.1)
    >>= (λ place. if not_empty word.0 && closes place then some word.0 else none))

abbrev pub is_in : Text → List Text → Bool
is_in call [] = false
is_in call (c ∷ cs) = c =? call || is_in call cs

-- `call.upper() != skip`
abbrev pub is_other : Option Text → Text → Bool
is_other none call = true
is_other (some skip) call = not (upper call =? skip)

abbrev pub visit : Option Text → Text → List Text → List Text
visit skip call visitors =
    if is_other skip call && not (is_in call visitors) then visitors ++ call ∷ [] else visitors

-- ", ".join(visitors)
abbrev pub comma_joined : List Text → Text
comma_joined [] = []
comma_joined (v ∷ []) = v
comma_joined (v ∷ w ∷ vs) = v ++ codes ", " ++ comma_joined (w ∷ vs)

-- A summary has no row behind it.
abbrev pub flush_visitors : List Text → List (Option ℕ × Text)
flush_visitors [] = []
flush_visitors (v ∷ vs) =
    (none, codes "*** visited: " ++ comma_joined (v ∷ vs) ++ codes " ***") ∷ []

unfoldable pub compact_from : Option Text → List Text → List (ℕ × Text) → List (Option ℕ × Text)
compact_from skip visitors [] = flush_visitors visitors
compact_from skip visitors ((row_id, line) ∷ rows) = elim (notice_call line) [
  | some call ↦ compact_from skip (visit skip call visitors) rows
  | none ↦ flush_visitors visitors ++ (some row_id, line) ∷ compact_from skip [] rows
]

abbrev pub skip_of : Option Text → Option Text
skip_of none = none
skip_of (some []) = none
skip_of (some (c ∷ s)) = some (upper (c ∷ s))

unfoldable pub compact_history : List (ℕ × Text) → Option Text → List (Option ℕ × Text)
compact_history rows exclude = compact_from (skip_of exclude) [] rows
