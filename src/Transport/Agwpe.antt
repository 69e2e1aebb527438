-- ===== src/Transport/Agwpe.antt =====
-- bbs/transport/agwpe.py: the frames of the AGWPE protocol and the loop that reads them. The child
-- Writer models the writer of one session.
pub mod Stream
pub mod Writer
mod Tests
use bbs.Prelude.{
  ℕ, ◌+◌, ◌*◌, ◌/◌, ◌%◌, ◌^◌, zero, suc, Bool, true, false, ◌&&◌, ◌||◌, List, [], ◌∷◌, ◌++◌, map,
  Option, none, some, ltb, leb, ◌==◌, if◌then◌else◌, length, take, drop, get_or, ◌>>=◌, ◌-◌,
  replicate,
}
use bbs.Text.{Text, upper, strip}

abbrev pub Bytes : Type 0
Bytes = List ℕ

abbrev pub header_size : ℕ
header_size = 36

abbrev pub pid_no_l3 : ℕ
pid_no_l3 = 240

-- str.encode("ascii"); `none` is UnicodeEncodeError.
abbrev pub is_ascii : Text → Bool
is_ascii [] = true
is_ascii (c ∷ s) = ltb c 128 && is_ascii s

-- struct's 10s pads with zeros and cuts.
abbrev pub field_10 : Bytes → Bytes
field_10 s = take 10 (s ++ replicate (10 - length s) 0)

unfoldable pub encode_call : Text → Option Bytes
encode_call call = if is_ascii (upper call) then some (take 9 (upper call) ++ 0 ∷ []) else none

-- A byte in front of a stripped text.
abbrev pub nul_cons : ℕ → Bytes → Bytes
nul_cons c [] = if c == 0 then [] else c ∷ []
nul_cons c (d ∷ r) = c ∷ d ∷ r

-- bytes.rstrip(b"\x00")
unfoldable pub rstrip_nul : Bytes → Bytes
rstrip_nul [] = []
rstrip_nul (c ∷ s) = nul_cons c (rstrip_nul s)

abbrev pub replaced : ℕ → ℕ
replaced b = if ltb b 128 then b else 65533

unfoldable pub decode_call : Bytes → Text
decode_call raw = strip (map replaced (rstrip_nul raw))

-- The `i` of struct, 32 bits, low byte first; a length is not negative.
abbrev pub le_32 : ℕ → Bytes
le_32 n = n % 256 ∷ n / 256 % 256 ∷ n / 65536 % 256 ∷ n / 16777216 ∷ []

unfoldable pub from_le : Bytes → ℕ
from_le [] = 0
from_le (b ∷ s) = b + 256 * from_le s

-- struct.pack; `none` is struct.error, for a number out of its range.
unfoldable pub pack_header : ℕ → ℕ → ℕ → Bytes → Bytes → ℕ → Option Bytes
pack_header port kind pid call_from call_to len =
    if ltb port 256 && ltb kind 256 && ltb pid 256 && ltb len 2147483648
    then some (
        (port ∷ 0 ∷ 0 ∷ 0 ∷ kind ∷ 0 ∷ pid ∷ 0 ∷ [])
        ++ (field_10 call_from ++ (field_10 call_to ++ (le_32 len ++ (0 ∷ 0 ∷ 0 ∷ 0 ∷ [])))))
    else none

unfoldable pub build_frame : ℕ → ℕ → Text → Text → ℕ → Bytes → Option Bytes
build_frame port kind call_from call_to pid payload = encode_call call_from >>= (λ from.
    encode_call call_to >>= (λ to.
      pack_header port kind pid from to (length payload) >>= (λ header. some (header ++ payload))))

-- v.upper().encode("ascii")[:9].ljust(10, b"\x00")
abbrev pub via_field : Text → Option Bytes
via_field v = if is_ascii (upper v) then some (field_10 (take 9 (upper v))) else none

unfoldable pub via_fields : List Text → Option Bytes
via_fields [] = some []
via_fields (v ∷ vs) = via_field v >>= (λ f. via_fields vs >>= (λ fs. some (f ++ fs)))

unfoldable pub build_unproto_via_frame : ℕ → Text → Text → List Text → Bytes → Option Bytes
build_unproto_via_frame port call_from call_to path payload =
    if ltb (length path) 256
    then (via_fields path >>= (λ fields.
        build_frame port 86 call_from call_to pid_no_l3 ((length path ∷ fields) ++ payload)))
    else none

-- A frame as the read loop hands it to the dispatcher.
pub record AgwFrame : Type 0 where
  pub kind : ℕ
  pub port : ℕ
  pub call_from : Text
  pub call_to : Text
  pub pid : ℕ
  pub payload : Bytes
  pub user_reserved : Bytes

-- The length field; one with its highest bit set is negative, and no payload is read then.
abbrev pub data_len : Bytes → ℕ
data_len raw = let n = from_le (take 4 (drop 28 raw)) in if ltb n 2147483648 then n else 0

unfoldable pub read_frame : Bytes → Option (AgwFrame × Bytes)
read_frame stream =
    let raw = take header_size stream in
    let rest = drop header_size stream in
    let n = data_len raw in
    if ltb (length stream) header_size
    then none
    else if ltb (length rest) n
    then none
    else some (
      record {
        kind = get_or raw 4 0;
        port = get_or raw 0 0;
        call_from = decode_call (take 10 (drop 8 raw));
        call_to = decode_call (take 10 (drop 18 raw));
        pid = get_or raw 6 0;
        payload = take n rest;
        user_reserved = take 4 (drop 32 raw);
      },
      drop n rest,
    )

abbrev pub none_left : Option (AgwFrame × Bytes) → (Bytes → List AgwFrame) → List AgwFrame
none_left none more = []
none_left (some (frame, rest)) more = frame ∷ more rest

-- The frames of a stream until it ends, at a border or within a frame. Each takes at least a header
-- off the stream, whose length is fuel enough.
unfoldable pub read_loop : ℕ → Bytes → List AgwFrame
read_loop zero stream = []
read_loop (suc fuel) stream = none_left (read_frame stream) (read_loop fuel)
