-- ===== src/Transport/Agwpe/Tests.antt =====
-- Frames of two stations, and the calls of a session that closes twice and writes again.
use bbs.Prelude.{true, false, ◌≡◌, refl, List, [], ◌∷◌, some, ◌>>=◌, length, arith}
use bbs.Transport.Agwpe.{AgwFrame, read_loop}
use bbs.Transport.Agwpe.Stream.{IsFrame, build_all, read_loop-build_all}
use bbs.Transport.Agwpe.Writer.{VirtualWriter}
use bbs.Transport.Agwpe.Writer.Closing.{
  WriterCall, sets_pid, writes, drains, closes, run, is_ordered, run-is_ordered,
}

-- A data frame from N0CAL to N1CAL-7, and a disconnect frame back.
abbrev data_frame : AgwFrame
data_frame = record {
  kind = 68;
  port = 1;
  call_from = 78 ∷ 48 ∷ 67 ∷ 65 ∷ 76 ∷ [];
  call_to = 78 ∷ 49 ∷ 67 ∷ 65 ∷ 76 ∷ 45 ∷ 55 ∷ [];
  pid = 240;
  payload = 72 ∷ 0 ∷ 105 ∷ 13 ∷ [];
  user_reserved = 0 ∷ 0 ∷ 0 ∷ 0 ∷ [];
}

abbrev bye_frame : AgwFrame
bye_frame = record {
  kind = 100;
  port = 1;
  call_from = 78 ∷ 49 ∷ 67 ∷ 65 ∷ 76 ∷ 45 ∷ 55 ∷ [];
  call_to = 78 ∷ 48 ∷ 67 ∷ 65 ∷ 76 ∷ [];
  pid = 0;
  payload = [];
  user_reserved = 0 ∷ 0 ∷ 0 ∷ 0 ∷ [];
}

data_frame-IsFrame : IsFrame data_frame
data_frame-IsFrame = record {
  port = omega arith;
  kind = omega arith;
  pid = omega arith;
  size = omega arith;
  from = ground arith;
  from_size = omega arith;
  to = ground arith;
  to_size = omega arith;
  reserved = refl;
}

bye_frame-IsFrame : IsFrame bye_frame
bye_frame-IsFrame = record {
  port = omega arith;
  kind = omega arith;
  pid = omega arith;
  size = omega arith;
  from = ground arith;
  from_size = omega arith;
  to = ground arith;
  to_size = omega arith;
  reserved = refl;
}

read_loop-build_all_example :
    build_all (data_frame ∷ bye_frame ∷ []) >>= (λ stream. some (read_loop (length stream) stream))
    ≡ some (data_frame ∷ bye_frame ∷ [])
read_loop-build_all_example =
    read_loop-build_all (data_frame ∷ bye_frame ∷ []) (data_frame-IsFrame, (bye_frame-IsFrame, tt))

abbrev fresh_writer : VirtualWriter
fresh_writer = record {
  local_call = 78 ∷ 48 ∷ 67 ∷ 65 ∷ 76 ∷ [];
  remote_call = 78 ∷ 49 ∷ 67 ∷ 65 ∷ 76 ∷ [];
  port = 0;
  closing = false;
  suppress_close = false;
  muted = false;
  pid = 240;
  sent = [];
}

abbrev session_calls : List WriterCall
session_calls =
    writes (72 ∷ []) ∷ sets_pid 207 ∷ drains false ∷ closes ∷ writes (73 ∷ []) ∷ closes ∷ []

run-is_ordered_example : is_ordered (run session_calls fresh_writer).sent ≡ true
run-is_ordered_example = run-is_ordered session_calls fresh_writer refl
