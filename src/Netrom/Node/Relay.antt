-- ===== src/Netrom/Node/Relay.antt =====
-- The bridge of bbs/netrom/node.py between a user and a far node: the line ends, and the two
-- pumps. The reads of a pump are the chunks in front of the end of the stream, none of them empty.
pub mod Lossless
pub mod Border
use bbs.Prelude.{
  ℕ, ◌+◌, Bool, true, false, ◌&&◌, ◌||◌, List, [], ◌∷◌, ◌++◌, map, Option, none, some, leb, ◌==◌,
  if◌then◌else◌, length, drop,
}

abbrev pub Bytes : Type 0
Bytes = List ℕ

abbrev pub bridge_line_max : ℕ
bridge_line_max = 256

abbrev pub is_lf : Bytes → Bool
is_lf [] = false
is_lf (c ∷ s) = c == 10

-- data.replace(b"\r\n", x) for a single byte x; the LF is the first byte of `rest`.
unfoldable pub replace_crlf : ℕ → Bytes → Bytes
replace_crlf x [] = []
replace_crlf x (c ∷ s) =
    let rest = replace_crlf x s in if c == 13 && is_lf s then x ∷ drop 1 rest else c ∷ rest

-- data.replace(a, b) for single bytes
abbrev pub swap : ℕ → ℕ → ℕ → ℕ
swap a b c = if c == a then b else c

unfoldable pub to_far : Bytes → Bytes
to_far data_ = map (swap 10 13) (replace_crlf 13 data_)

-- normalized.replace(b"\n", user_eol)
unfoldable pub expand_lf : Bytes → Bytes → Bytes
expand_lf eol [] = []
expand_lf eol (c ∷ s) = if c == 10 then eol ++ expand_lf eol s else c ∷ expand_lf eol s

unfoldable pub to_user : Bytes → Bytes → Bytes
to_user eol data_ = expand_lf eol (map (swap 13 10) (replace_crlf 10 data_))

abbrev pub is_newline : ℕ → Bool
is_newline c = c == 13 || c == 10

abbrev pub cons_split : ℕ → Bytes → Option (Bytes × Bytes) → Option (Bytes × Bytes)
cons_split c s (some (line, rest)) = some (c ∷ line, rest)
cons_split c s none = if is_newline c then some (c ∷ [], s) else none

-- The bytes up to the last CR or LF, and those behind it.
unfoldable pub split_last : Bytes → Option (Bytes × Bytes)
split_last [] = none
split_last (c ∷ s) = cons_split c s (split_last s)

-- What is written, and what stays pending.
abbrev pub flush_lines : Bytes → Option (Bytes × Bytes) → List Bytes × Bytes
flush_lines pending (some (line, rest)) = (to_far line ∷ [], rest)
flush_lines pending none =
    if leb bridge_line_max (length pending) then (to_far pending ∷ [], []) else ([], pending)

-- One read of the pump from the user to the far node.
unfoldable pub absorb : Bytes → Bytes → List Bytes × Bytes
absorb pending chunk = flush_lines (pending ++ chunk) (split_last (pending ++ chunk))

-- The rest of the stream at its end.
abbrev pub tail_writes : Bytes → List Bytes
tail_writes [] = []
tail_writes (c ∷ s) = to_far (c ∷ s) ∷ []

-- a_to_b: the writes to the far node.
unfoldable pub a_to_b : Bytes → List Bytes → List Bytes
a_to_b pending [] = tail_writes pending
a_to_b pending (chunk ∷ chunks) = (absorb pending chunk).0 ++ a_to_b (absorb pending chunk).1 chunks

-- The echo of a_to_b, and b_to_a: the writes to the user.
unfoldable pub echoed : Bool → Bytes → List Bytes → List Bytes
echoed echo_local eol chunks = if echo_local then map (to_user eol) chunks else []

unfoldable pub b_to_a : Bytes → List Bytes → List Bytes
b_to_a eol chunks = map (to_user eol) chunks
