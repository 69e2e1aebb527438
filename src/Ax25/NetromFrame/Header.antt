-- ===== src/Ax25/NetromFrame/Header.antt =====
-- The 20-byte L3/L4 header of bbs/ax25/netrom_frame.py.
use bbs.Prelude.{
  ℕ, ◌+◌, ◌*◌, ◌/◌, ◌%◌, Bool, [], ◌∷◌, ◌++◌, Option, none, some, ltb, ◌==◌, if◌then◌else◌, length,
  take, drop, get_or, set, ◌>>=◌,
}
use bbs.Text.{Text}
use bbs.Ax25.NetromFrame.Wire.{Bytes, encode_wire_call, decode_wire_call}

pub record L3Header : Type 0 where
  pub origin_call : Text
  pub dest_call : Text
  pub ttl : ℕ
  pub circuit_idx : ℕ
  pub circuit_id : ℕ
  pub tx_seq : ℕ
  pub rx_seq : ℕ
  pub opcode_flags : ℕ

-- opcode_flags & 0x07
abbrev pub opcode : L3Header → ℕ
opcode h = h.opcode_flags % 8

-- opcode_flags & FLAG_CHOKE
abbrev pub choke : L3Header → Bool
choke h = h.opcode_flags / 128 % 2 == 1

-- opcode_flags & FLAG_MORE_FOLLOWS
abbrev pub more_follows : L3Header → Bool
more_follows h = h.opcode_flags / 32 % 2 == 1

abbrev pub opcode_connect_req : ℕ
opcode_connect_req = 1

abbrev pub opcode_connect_ack : ℕ
opcode_connect_ack = 2

abbrev pub opcode_disconnect_req : ℕ
opcode_disconnect_req = 3

abbrev pub opcode_disconnect_ack : ℕ
opcode_disconnect_ack = 4

abbrev pub opcode_information : ℕ
opcode_information = 5

abbrev pub opcode_information_ack : ℕ
opcode_information_ack = 6

abbrev pub flag_choke : ℕ
flag_choke = 128

abbrev pub flag_more_follows : ℕ
flag_more_follows = 32

abbrev pub l3_header_len : ℕ
l3_header_len = 20

-- out[13] |= 0x01
abbrev set_eoa : Bytes → Bytes
set_eoa out = set out 13 (get_or out 13 0 / 2 * 2 + 1)

unfoldable pub encode_l3_header : L3Header → Option Bytes
encode_l3_header h = do
  origin ← encode_wire_call h.origin_call
  dest ← encode_wire_call h.dest_call
  some (
      set_eoa (origin ++ dest)
      ++ (h.ttl % 256)
        ∷ (h.circuit_idx % 256)
        ∷ (h.circuit_id % 256)
        ∷ (h.tx_seq % 256)
        ∷ (h.rx_seq % 256)
        ∷ (h.opcode_flags % 256)
        ∷ [])

-- The header in the first 20 bytes.
unfoldable pub header_fields : Bytes → L3Header
header_fields bytes = record {
  origin_call = decode_wire_call (take 7 bytes);
  dest_call = decode_wire_call (take 7 (drop 7 bytes));
  ttl = get_or bytes 14 0;
  circuit_idx = get_or bytes 15 0;
  circuit_id = get_or bytes 16 0;
  tx_seq = get_or bytes 17 0;
  rx_seq = get_or bytes 18 0;
  opcode_flags = get_or bytes 19 0;
}

unfoldable pub decode_l3_header : Bytes → Option L3Header
unfolding header_fields
decode_l3_header bytes =
    if ltb (length bytes) l3_header_len then none else some (header_fields bytes)
