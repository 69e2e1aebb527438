-- ===== src/Transport/Agwpe/Writer.antt =====
-- The _AGWPEVirtualWriter of bbs/transport/agwpe.py: what reaches the shared TCP writer.
pub mod Closing
use bbs.Prelude.{
  ℕ, ◌%◌, Bool, true, false, ◌||◌, List, [], ◌∷◌, ◌++◌, Option, none, some, if◌then◌else◌, length,
  ◌==◌,
}
use bbs.Text.{Text}
use bbs.Transport.Agwpe.{Bytes, build_frame, pid_no_l3}

-- `sent` has the frames on the wire.
pub record VirtualWriter : Type 0 where
  pub local_call : Text
  pub remote_call : Text
  pub port : ℕ
  pub closing : Bool
  pub suppress_close : Bool
  pub muted : Bool
  pub pid : ℕ
  pub sent : List Bytes

unfoldable pub set_pid : ℕ → VirtualWriter → VirtualWriter
set_pid pid w = record w { pid = pid % 256 }

unfoldable pub mute : VirtualWriter → VirtualWriter
mute w = record w { muted = true }

unfoldable pub suppress : VirtualWriter → VirtualWriter
suppress w = record w { suppress_close = true }

abbrev pub put_frame : VirtualWriter → Bytes → VirtualWriter
put_frame w frame = record w { sent = w.sent ++ frame ∷ [] }

abbrev pub wrote : VirtualWriter → Option Bytes → Option VirtualWriter
wrote w none = none
wrote w (some frame) = some (put_frame w frame)

-- A D frame; `none` is what the packing raises.
unfoldable pub virtual_write : Bytes → VirtualWriter → Option VirtualWriter
virtual_write payload w =
    let framed = wrote w (build_frame w.port 68 w.local_call w.remote_call w.pid payload) in
    if w.muted || w.closing then some w else if length payload == 0 then some w else framed

-- A timeout of `drain` closes the writer without a frame, and raises.
unfoldable pub virtual_drain : Bool → VirtualWriter → VirtualWriter × Bool
virtual_drain times_out w =
    if w.closing
    then (w, false)
    else if times_out
    then (record w { closing = true }, true)
    else (w, false)

abbrev pub disconnected : VirtualWriter → Option Bytes → VirtualWriter
disconnected w none = w
disconnected w (some frame) = put_frame w frame

-- A d frame, once; what its packing raises is swallowed.
unfoldable pub virtual_close : VirtualWriter → VirtualWriter
virtual_close w =
    if w.closing
    then w
    else if w.suppress_close
    then w
    else disconnected (record w { closing = true })
        (build_frame w.port 100 w.local_call w.remote_call 0 [])
