-- ===== src/Ax25/Kiss/Stream.antt =====
-- Streams of KISS frames, from build_kiss_frame to split_kiss_frames of bbs/ax25/kiss_frame.py.
use bbs.Prelude.{
  ℕ, zero, suc, ◌%◌, ◌/◌, ◌≤◌, ◌≡◌, ◌≢◌, refl, true, false, List, [], ◌∷◌, ◌++◌, map, none, some,
  ◌==◌, length, arith, append_assoc, length-append, ◌∙◌,
}
use bbs.Ax25.NetromFrame.Wire.{Bytes}
use bbs.Ax25.Kiss.{
  fend, command_byte, kiss_escape, build_kiss_frame, decode_ax25, decode_frame, find_fend,
  keep_split, split_rounds, split_kiss_frames,
}
use bbs.Ax25.Kiss.Laws.{NoFend, escape-NoFend, unescape-escape}

find_fend-append : (a b : Bytes) → NoFend a → find_fend (a ++ fend ∷ b) ≡ some (a, b)
unfolding find_fend
find_fend-append [] b h = refl
find_fend-append (x ∷ a) b h = rw (h.0, find_fend-append a b h.1)

find_fend-NoFend : (a : Bytes) → NoFend a → find_fend a ≡ none
unfolding find_fend
find_fend-NoFend [] h = refl
find_fend-NoFend (x ∷ a) h = rw (h.0, find_fend-NoFend a h.1)

-- A port number whose command byte is not a FEND: any but 12, and 12 more than a multiple of 16.
abbrev pub IsPort : ℕ → Type 0
IsPort port = port % 16 ≢ 12

abbrev pub AllPorts : List (ℕ × Bytes) → Type 0
AllPorts [] = Unit
AllPorts ((port, f) ∷ fs) = IsPort port × AllPorts fs

-- What the transport writes for a list of frames, and what a reader should split it into.
abbrev pub stream : List (ℕ × Bytes) → Bytes
stream [] = []
stream ((port, f) ∷ fs) = build_kiss_frame port f ++ stream fs

abbrev pub raw_frame : ℕ × Bytes → Bytes
raw_frame (port, f) = command_byte port ∷ kiss_escape f

command-NoFend : (port : ℕ) → IsPort port → (command_byte port == fend) ≡ false
command-NoFend port h = ground arith

-- One round: the buffer up to two FENDs, with one FEND only, and with none.
split_next :
    (fuel : ℕ) (buf x opened raw after : Bytes)
    → find_fend buf ≡ some (x, opened)
    → find_fend opened ≡ some (raw, after)
    → split_rounds (suc fuel) buf ≡ keep_split raw (split_rounds fuel after)
unfolding split_rounds
split_next fuel buf x opened raw after p q = rw (p, split_rounds) (rw q)

split_open :
    (fuel : ℕ) (buf x opened : Bytes)
    → find_fend buf ≡ some (x, opened)
    → find_fend opened ≡ none
    → split_rounds fuel buf ≡ ([], buf)
unfolding split_rounds
split_open zero buf x opened p q = refl
split_open (suc fuel) buf x opened p q = rw (p, split_rounds) (rw q)

split_rounds-NoFend : (fuel : ℕ) (rest : Bytes) → NoFend rest → split_rounds fuel rest ≡ ([], rest)
unfolding split_rounds
split_rounds-NoFend zero rest h = refl
split_rounds-NoFend (suc fuel) rest h = rw (find_fend-NoFend rest h, split_rounds)

split_one :
    (fuel port : ℕ) (f rest : Bytes)
    → IsPort port
    → split_rounds (suc fuel) (build_kiss_frame port f ++ rest)
      ≡ keep_split (raw_frame (port, f)) (split_rounds fuel rest)
unfolding build_kiss_frame
split_one fuel port f rest h =
    let body = command_byte port ∷ (kiss_escape f ++ fend ∷ []) ++ rest in
    let inner : find_fend body ≡ some (raw_frame (port, f), rest) =
      rw append_assoc
        (find_fend-append (raw_frame (port, f)) rest (command-NoFend port h, escape-NoFend f)) in
    split_next fuel (fend ∷ body) [] body (raw_frame (port, f)) rest (find_fend-append [] body tt)
      inner

split_rounds-stream :
    (fuel : ℕ) (fs : List (ℕ × Bytes)) (rest : Bytes)
    → AllPorts fs
    → NoFend rest
    → length fs ≤ fuel
    → split_rounds fuel (stream fs ++ rest) ≡ (map raw_frame fs, rest)
split_rounds-stream fuel [] rest p n h = split_rounds-NoFend fuel rest n
split_rounds-stream zero ((port, f) ∷ fs) rest p n h = absurd (omega arith)
split_rounds-stream (suc fuel) ((port, f) ∷ fs) rest p n h = rw append_assoc (
    rw (split_one fuel port f (stream fs ++ rest) p.0)
      (rw (split_rounds-stream fuel fs rest p.1 n (omega arith))))

length-stream : (fs : List (ℕ × Bytes)) → length fs ≤ length (stream fs)
unfolding build_kiss_frame
length-stream [] = omega arith
length-stream ((port, f) ∷ fs) = omega (
  arith,
  length-stream fs,
  length-append (kiss_escape f ++ fend ∷ []) (stream fs),
  length-append (kiss_escape f) (fend ∷ []),
)

-- A stream of KISS frames built for ports that are not 12 modulo 16, and bytes without a FEND
-- behind it, is split into exactly those frames, with those bytes left in the buffer.
pub split-stream :
    (fs : List (ℕ × Bytes)) (rest : Bytes)
    → AllPorts fs
    → NoFend rest
    → split_kiss_frames (stream fs ++ rest) ≡ (map raw_frame fs, rest)
unfolding split_kiss_frames
split-stream fs rest p n =
    split_rounds-stream (length (stream fs ++ rest)) fs rest p n
      (omega (arith, length-stream fs, length-append (stream fs) rest))

-- A raw frame that the splitter hands on decodes as the AX.25 frame that was built into it, at the
-- low four bits of its port.
pub decode-raw_frame :
    (port : ℕ) (f : Bytes) → decode_frame (raw_frame (port, f)) ≡ decode_ax25 f (port % 16)
unfolding decode_frame
decode-raw_frame port f =
    let t : (command_byte port % 16 == 0) ≡ true = ground arith in
    let p : command_byte port / 16 % 16 ≡ port % 16 = omega arith in
    rw t (rw (p, unescape-escape f))

-- A frame built for port 12 is lost: its command byte is a FEND, so the splitter takes it for an
-- empty frame and leaves the escaped bytes in the buffer.
pub split-port_12 :
    (port : ℕ) (f : Bytes)
    → port % 16 ≡ 12
    → split_kiss_frames (build_kiss_frame port f) ≡ ([], kiss_escape f ++ fend ∷ [])
unfolding split_kiss_frames build_kiss_frame
split-port_12 port f h =
    let c : command_byte port ≡ fend = omega arith in
    let left = kiss_escape f ++ fend ∷ [] in
    rw c (
      split_next (suc (length left)) (fend ∷ fend ∷ left) [] (fend ∷ left) [] left
        (find_fend-append [] (fend ∷ left) tt) (find_fend-append [] left tt)
      ∙ rw (
          split_open (suc (length left)) left (kiss_escape f) []
            (find_fend-append (kiss_escape f) [] (escape-NoFend f)) (find_fend-NoFend [] tt)))
