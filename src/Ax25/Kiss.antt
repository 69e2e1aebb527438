-- ===== src/Ax25/Kiss.antt =====
-- bbs/ax25/kiss_frame.py: KISS framing and the AX.25 frames in it. The masks are written as `/` and
-- `%`, which agree with them on bytes.
pub mod Laws
pub mod Stream
mod Tests
use bbs.Prelude.{
  ℕ, zero, suc, ◌+◌, ◌-◌, ◌*◌, ◌/◌, ◌%◌, Bool, true, false, ◌&&◌, ◌||◌, not, List, [], ◌∷◌, ◌++◌,
  Option, none, some, ltb, leb, ◌==◌, if◌then◌else◌, length, take, drop, get_elem?, ◌>>=◌,
}
use bbs.Text.{Text, strip}
use bbs.Ax25.NetromFrame.Wire.{Bytes, wire_char, wire_ssid}
use bbs.Ax25.Address.{format_addr}

abbrev pub fend : ℕ
fend = 192

abbrev pub fesc : ℕ
fesc = 219

abbrev pub tfend : ℕ
tfend = 220

abbrev pub tfesc : ℕ
tfesc = 221

pub record KissFrame : Type 0 where
  pub port : ℕ
  pub dest_call : Text
  pub src_call : Text
  pub is_ui : Bool
  pub pid : ℕ
  pub payload : Bytes
  pub via : List Text

-- The byte that an escape sequence stands for; a malformed one is skipped.
abbrev unescape_next : ℕ → Bytes → Bytes
unescape_next nxt out =
    if nxt == tfend then fend ∷ out else if nxt == tfesc then fesc ∷ out else out

unfoldable pub kiss_unescape : Bytes → Bytes
kiss_unescape [] = []
kiss_unescape (b ∷ []) = if b == fesc then [] else b ∷ []
kiss_unescape (b ∷ nxt ∷ bytes) =
    let escaped = kiss_unescape bytes in
    let plain = kiss_unescape (nxt ∷ bytes) in
    if b == fesc then unescape_next nxt escaped else b ∷ plain

unfoldable pub kiss_escape : Bytes → Bytes
kiss_escape [] = []
kiss_escape (b ∷ bytes) =
    let out = kiss_escape bytes in
    if b == fend then fesc ∷ tfend ∷ out else if b == fesc then fesc ∷ tfesc ∷ out else b ∷ out

-- (port & 0x0F) << 4
abbrev pub command_byte : ℕ → ℕ
command_byte port = port % 16 * 16

unfoldable pub build_kiss_frame : ℕ → Bytes → Bytes
unfolding kiss_escape
build_kiss_frame port ax25_frame = fend ∷ command_byte port ∷ kiss_escape ax25_frame ++ fend ∷ []

-- The characters of an address field, the padding spaces skipped.
unfoldable pub field_chars : Bytes → Text
field_chars [] = []
field_chars (b ∷ bytes) =
    let rest = field_chars bytes in if wire_char b == 32 then rest else wire_char b ∷ rest

-- `none` is the IndexError of a field of less than 7 bytes.
unfoldable pub decode_callsign : Bytes → Option (Text × ℕ)
unfolding field_chars strip
decode_callsign addr_field = do
  last ← get_elem? addr_field 6
  some (strip (field_chars (take 6 addr_field)), wire_ssid last)

-- format_addr(call, ssid) + ("*" if h_bit else ""), if the field has a call.
abbrev pub digi_added : Text × ℕ → Bool → List Text → Option (List Text)
digi_added (call, ssid) h_bit via =
    if leb 1 (length call)
    then (do
      addr ← format_addr call ssid
      some (via ++ (if h_bit then addr ++ 42 ∷ [] else addr) ∷ []))
    else some via

unfoldable pub digi_entry : Bytes → List Text → Option (List Text)
digi_entry digi_field via = decode_callsign digi_field >>= (λ decoded.
    get_elem? digi_field 6 >>= (λ last. digi_added decoded (last / 128 % 2 == 1) via))

-- The walk of the digipeater path from `offset` on; each round takes 7 bytes, and the fuel counts
-- rounds. The result is the path and the offset behind it.
unfoldable pub walk_path : ℕ → Bytes → ℕ → List Text → Option (List Text × ℕ)
walk_path zero ax25 offset via = some (via, offset)
walk_path (suc fuel) ax25 offset via =
    let digi_field = take 7 (drop offset ax25) in
    let go = (do
      via' ← digi_entry digi_field via
      last ← get_elem? digi_field 6
      (if last % 2 == 1 then some (via', offset + 7) else walk_path fuel ax25 (offset + 7) via')) in
    if leb (offset + 7) (length ax25) then go else some (via, offset)

-- control & 0xEF == 0x03
abbrev pub is_ui_control : ℕ → Bool
is_ui_control control = control / 32 * 32 + control % 16 == 3

-- The control field, the PID and the payload from `offset` on. The outer `none` is an IndexError, the
-- inner one the result None.
unfoldable pub decode_info : Bytes → ℕ → ℕ → Text → Text → List Text → Option (Option KissFrame)
decode_info ax25 port offset dest src via =
    let frame : Bool → ℕ → Bytes → KissFrame = λ is_ui pid payload. record {
      port = port;
      dest_call = dest;
      src_call = src;
      is_ui = is_ui;
      pid = pid;
      payload = payload;
      via = via;
    } in
    if leb (length ax25) offset
    then some none
    else get_elem? ax25 offset >>= (λ control.
      if not (is_ui_control control)
      then some (some (frame false 0 (drop (offset + 1) ax25)))
      else if ltb (length ax25) (offset + 2)
      then some none
      else get_elem? ax25 (offset + 1)
        >>= (λ pid. some (some (frame true pid (drop (offset + 2) ax25)))))

-- format_addr(*_decode_callsign(field))
abbrev pub format_field : Bytes → Option Text
format_field field_ = decode_callsign field_ >>= (λ decoded. format_addr decoded.0 decoded.1)

-- The path behind the source address, whose last byte tells whether there is one.
abbrev pub path_of : Bytes → ℕ → Option (List Text × ℕ)
path_of ax25 last = if last % 2 == 1 then some ([], 14) else walk_path (length ax25) ax25 14 []

-- The outer `none` is the ValueError of `format_addr` or an IndexError, the inner one the result None.
unfoldable pub decode_ax25 : Bytes → ℕ → Option (Option KissFrame)
decode_ax25 ax25 port = if ltb (length ax25) 15 then some none else do
  dest ← format_field (take 7 ax25)
  src ← format_field (take 7 (drop 7 ax25))
  walked ← (get_elem? ax25 13 >>= path_of ax25)
  decode_info ax25 port walked.1 dest src walked.0

-- A frame of another type than 0 carries no data.
unfoldable pub decode_frame : Bytes → Option (Option KissFrame)
decode_frame [] = some none
decode_frame (command ∷ raw) =
    if not (command % 16 == 0)
    then some none
    else decode_ax25 (kiss_unescape raw) (command / 16 % 16)

-- buf.find(FEND): the bytes before the first FEND and those behind it.
unfoldable pub find_fend : Bytes → Option (Bytes × Bytes)
find_fend [] = none
find_fend (b ∷ buf) =
    let rest = (do found ← find_fend buf; some (b ∷ found.0, found.1)) in
    if b == fend then some ([], buf) else rest

-- `if frame_data:`
abbrev pub keep_frame : Bytes → List Bytes → List Bytes
keep_frame [] frames = frames
keep_frame (b ∷ bytes) frames = (b ∷ bytes) ∷ frames

abbrev pub keep_split : Bytes → List Bytes × Bytes → List Bytes × Bytes
keep_split raw (frames, rest) = (keep_frame raw frames, rest)

-- Each round of the loop takes two FENDs off the buffer; the fuel counts rounds.
unfoldable pub split_rounds : ℕ → Bytes → List Bytes × Bytes
split_rounds zero buf = ([], buf)
split_rounds (suc fuel) buf = elim (find_fend buf) [
  | none ↦ ([], buf)
  | some (_, opened) ↦ elim (find_fend opened) [
    | none ↦ ([], buf)
    | some (raw, after) ↦ keep_split raw (split_rounds fuel after)
  ]
]

unfoldable pub split_kiss_frames : Bytes → List Bytes × Bytes
unfolding split_rounds
split_kiss_frames buf = split_rounds (length buf) buf
