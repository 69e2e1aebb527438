-- ===== src/Text.antt =====
-- Python's `str` as the list of its code points, and the methods that the program calls on it.
-- `upper`, `strip` and `int` are those of ASCII text; a code point above 127 stays as it is.
pub mod Laws
use Prim.Native.Char.{code}
use Prim.Native.String.{String}
use bbs.Prelude.{
  ℕ, ◌+◌, ◌-◌, ◌*◌, ◌/◌, ◌%◌, zero, suc, Bool, true, false, ◌&&◌, ◌||◌, List, [], ◌∷◌, ◌++◌, map,
  Option, none, some, ltb, leb, ◌==◌, ◌=?◌, nat_eq, if◌then◌else◌, length, take, replicate,
}
use mathlib.Core.List.{reverse}

abbrev pub Text : Type 0
Text = List ℕ

-- A literal of the source.
abbrev pub codes : String → Text
codes String.[] = []
codes (String.◌∷◌ c s) = code c ∷ codes s

abbrev pub is_digit : ℕ → Bool
is_digit c = leb 48 c && leb c 57

-- Only digits, or nothing.
abbrev pub all_digits : Text → Bool
all_digits [] = true
all_digits (c ∷ s) = is_digit c && all_digits s

abbrev pub is_upper : ℕ → Bool
is_upper c = leb 65 c && leb c 90

abbrev pub upper_char : ℕ → ℕ
upper_char c = if leb 97 c && leb c 122 then c - 32 else c

-- s.upper()
abbrev pub upper : Text → Text
upper = map upper_char

abbrev pub lower_char : ℕ → ℕ
lower_char c = if is_upper c then c + 32 else c

-- s.lower()
abbrev pub lower : Text → Text
lower = map lower_char

-- The ASCII characters that `str.strip` takes off: 9 to 13, 28 to 31, and the space.
abbrev pub is_space : ℕ → Bool
is_space c = (leb 9 c && leb c 13) || (leb 28 c && leb c 32)

unfoldable pub lstrip : Text → Text
lstrip [] = []
lstrip (c ∷ s) = let rest = lstrip s in if is_space c then rest else c ∷ s

unfoldable pub rstrip : Text → Text
unfolding lstrip
rstrip [] = []
rstrip (c ∷ s) = elim (rstrip s) [ [] ↦ if is_space c then [] else c ∷ [] | d ∷ r ↦ c ∷ d ∷ r ]

-- s.strip()
unfoldable pub strip : Text → Text
unfolding lstrip rstrip
strip s = rstrip (lstrip s)

-- s.ljust(n)
abbrev pub ljust : ℕ → Text → Text
ljust n s = s ++ replicate (n - length s) 32

-- s.split("-", 1)[0]
unfoldable pub before_dash : Text → Text
before_dash [] = []
before_dash (c ∷ s) = let rest = before_dash s in if c == 45 then [] else c ∷ rest

-- `c` stands in front of a text that was split at its last dash.
abbrev dash_cons : ℕ → Text → Text × Option Text → Text × Option Text
dash_cons c s (front, some back) = (c ∷ front, some back)
dash_cons c s (front, none) = if c == 45 then ([], some s) else (c ∷ s, none)

-- s.rsplit("-", 1): the part before the last dash, and the part behind it if there is one.
unfoldable pub rsplit_dash : Text → Text × Option Text
rsplit_dash [] = ([], none)
rsplit_dash (c ∷ s) = dash_cons c s (rsplit_dash s)

-- The digits of a decimal literal, with single underscores between digits.
unfoldable pub digits_from : ℕ → Bool → Text → Option ℕ
digits_from n seen [] = if seen then some n else none
digits_from n seen (c ∷ s) =
    let more = digits_from (n * 10 + (c - 48)) true s in
    let gap = digits_from n false s in
    if is_digit c then more else if c == 95 && seen then gap else none

abbrev unsigned : Text → Text
unsigned [] = []
unsigned (c ∷ s) = if c == 43 then s else c ∷ s

-- int(s) for a text with no minus sign; `none` is ValueError.
unfoldable pub parse_int : Text → Option ℕ
unfolding digits_from strip
parse_int s = digits_from 0 false (unsigned (strip s))

-- str(n) for a number below 100.
unfoldable pub decimal : ℕ → Text
decimal n = if ltb n 10 then (48 + n) ∷ [] else (48 + n / 10) ∷ (48 + n % 10) ∷ []

-- s.startswith(prefix)
unfoldable pub starts_with : Text → Text → Bool
starts_with [] s = true
starts_with (c ∷ prefix) [] = false
starts_with (c ∷ prefix) (d ∷ s) = let rest = starts_with prefix s in if c =? d then rest else false

-- `\S+` as far as it goes, and the rest
unfoldable pub span_word : Text → Text × Text
span_word [] = ([], [])
span_word (c ∷ s) =
    let rest : Text × Text = span_word s in if is_space c then ([], c ∷ s) else (c ∷ rest.0, rest.1)
