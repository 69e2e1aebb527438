-- ===== src/Ax25/Kiss/Tests.antt =====
-- Runs of the KISS framing of bbs/ax25/kiss_frame.py.
use bbs.Prelude.{◌≡◌, refl, [], ◌∷◌, ◌++◌, Option, some, arith, map}
use bbs.Ax25.NetromFrame.Wire.{Bytes}
use bbs.Ax25.Kiss.{KissFrame, kiss_escape, build_kiss_frame, split_kiss_frames, decode_ax25}
use bbs.Ax25.Kiss.Laws.{decode_ax25_total}
use bbs.Ax25.Kiss.Stream.{raw_frame, stream, split-stream, split-port_12}

abbrev awkward : Bytes
awkward = 192 ∷ 219 ∷ 220 ∷ 65 ∷ []

decode_ax25_total_example : (r : Option KissFrame) × (decode_ax25 awkward 3 ≡ some r)
decode_ax25_total_example = decode_ax25_total awkward 3

split-stream_example :
    split_kiss_frames (stream ((0, awkward) ∷ (13, []) ∷ []) ++ 7 ∷ [])
    ≡ (map raw_frame ((0, awkward) ∷ (13, []) ∷ []), 7 ∷ [])
split-stream_example =
    split-stream ((0, awkward) ∷ (13, []) ∷ []) (7 ∷ []) (ground arith, (ground arith, tt))
      (refl, tt)

split-port_12_example :
    split_kiss_frames (build_kiss_frame 12 awkward) ≡ ([], kiss_escape awkward ++ 192 ∷ [])
split-port_12_example = split-port_12 12 awkward refl
