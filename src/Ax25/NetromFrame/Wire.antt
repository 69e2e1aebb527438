-- ===== src/Ax25/NetromFrame/Wire.antt =====
-- The wire-format helpers of bbs/ax25/netrom_frame.py: 7-byte addresses and 6-byte aliases.
use bbs.Prelude.{
  ℕ, ◌*◌, ◌/◌, ◌%◌, ◌||◌, List, [], ◌∷◌, ◌++◌, map, Option, none, some, ltb, ◌==◌, if◌then◌else◌,
  take, get_or, ◌>>=◌,
}
use bbs.Text.{Text, upper, ljust, rsplit_dash, parse_int, decimal, rstrip}

abbrev pub Bytes : Type 0
Bytes = List ℕ

-- (b >> 1) & 0x7F
abbrev pub wire_char : ℕ → ℕ
wire_char b = b / 2 % 128

-- The characters of an address, NUL and the space padding skipped.
unfoldable pub wire_chars : Bytes → Text
wire_chars [] = []
wire_chars (b ∷ data_) =
    let rest = wire_chars data_ in
    if wire_char b == 0 || wire_char b == 32 then rest else wire_char b ∷ rest

-- (b >> 1) & 0x0F
abbrev pub wire_ssid : ℕ → ℕ
wire_ssid b = b / 2 % 16

-- f"{call}-{ssid}" if ssid else call
unfoldable pub show_call : Text → ℕ → Text
unfolding decimal
show_call call ssid = if ssid == 0 then call else call ++ 45 ∷ decimal ssid

-- Every caller passes a slice of 7 bytes.
unfoldable pub decode_wire_call : Bytes → Text
unfolding show_call wire_chars
decode_wire_call bytes = show_call (wire_chars (take 6 bytes)) (wire_ssid (get_or bytes 6 0))

-- int(parts[1]) & 0x0F if len(parts) > 1 else 0; `none` is the ValueError of `int`.
unfoldable pub ssid_of : Option Text → Option ℕ
unfolding parse_int
ssid_of none = some 0
ssid_of (some back) = do n ← parse_int back; some (n % 16)

-- (ord(c) << 1) & 0xFE
abbrev pub to_wire : ℕ → ℕ
to_wire c = c * 2 % 256

unfoldable pub wire_bytes : Text → ℕ → Bytes
wire_bytes front ssid = map to_wire (ljust 6 (take 6 front)) ++ (ssid * 2 % 32) ∷ []

unfoldable pub encode_wire_call : Text → Option Bytes
unfolding ssid_of wire_bytes rsplit_dash
encode_wire_call addr =
    let (front, back) = rsplit_dash (upper addr) in
    do ssid ← ssid_of back; some (wire_bytes front ssid)

-- bytes.decode("ascii", errors="replace")
abbrev pub ascii_decode : ℕ → ℕ
ascii_decode b = if ltb b 128 then b else 65533

unfoldable pub decode_alias : Bytes → Text
unfolding rstrip
decode_alias bytes = rstrip (map ascii_decode (take 6 bytes))

-- str.encode("ascii", errors="replace")
abbrev pub ascii_encode : ℕ → ℕ
ascii_encode c = if ltb c 128 then c else 63

unfoldable pub encode_alias : Text → Bytes
encode_alias alias = map ascii_encode (ljust 6 (take 6 (upper alias)))
