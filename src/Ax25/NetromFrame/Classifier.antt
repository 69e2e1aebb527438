-- ===== src/Ax25/NetromFrame/Classifier.antt =====
-- `looks_like_netrom_l3` of bbs/ax25/netrom_frame.py.
use bbs.Prelude.{
  ◌/◌, ◌%◌, Bool, false, ◌&&◌, ◌||◌, not, ltb, leb, ◌==◌, if◌then◌else◌, length, take, drop, get_or,
}
use bbs.Ax25.NetromFrame.Wire.{Bytes}
use bbs.Ax25.NetromFrame.Header.{l3_header_len}
use bbs.Ax25.NetromFrame.Frame.{all_callsign_chars}

-- The early returns, in the order of the source. The masks 0xE1 and 0xE0 are read on bytes.
unfoldable pub looks_like_netrom_l3 : Bytes → Bool
looks_like_netrom_l3 bytes =
    if ltb (length bytes) l3_header_len
    then false
    else if not (all_callsign_chars (take 6 bytes))
    then false
    else if not (get_or bytes 6 0 / 32 == 0) || not (get_or bytes 6 0 % 2 == 0)
    then false
    else if not (all_callsign_chars (take 6 (drop 7 bytes)))
    then false
    else if not (get_or bytes 13 0 / 32 == 0)
    then false
    else if not (leb 1 (get_or bytes 14 0) && leb (get_or bytes 14 0) 64)
    then false
    else leb 1 (get_or bytes 19 0 % 8) && leb (get_or bytes 19 0 % 8) 6
