-- ===== src/Transport/Agwpe/Writer/Closing.antt =====
-- What a session's writer puts on the wire around its closing.
use bbs.Prelude.{
  ℕ, Bool, true, false, ◌&&◌, ◌||◌, ◌≡◌, refl, sym, ◌∙◌, List, [], ◌∷◌, ◌++◌, Option, none, some,
  arith, if◌then◌else◌, length, ◌==◌, true_ne_false, if_cases, get_or, ◌>>=◌,
}
use bbs.Text.{Text}
use bbs.Transport.Agwpe.{Bytes, build_frame, pack_header, encode_call}
use bbs.Transport.Agwpe.Writer.{
  VirtualWriter, set_pid, mute, suppress, virtual_write, virtual_drain, virtual_close, wrote,
  disconnected,
}

-- The calls of a session; `drains` tells whether the drain times out.
pub data WriterCall : Type 0 where
  sets_pid : ℕ → WriterCall
  writes : Bytes → WriterCall
  drains : Bool → WriterCall
  mutes suppresses closes : WriterCall

-- A call that raises leaves the writer as it is.
abbrev pub or_same : VirtualWriter → Option VirtualWriter → VirtualWriter
or_same w none = w
or_same w (some v) = v

abbrev pub call : WriterCall → VirtualWriter → VirtualWriter
call (sets_pid pid) w = set_pid pid w
call (writes payload) w = or_same w (virtual_write payload w)
call (drains times_out) w = (virtual_drain times_out w).0
call mutes w = mute w
call suppresses w = suppress w
call closes w = virtual_close w

abbrev pub run : List WriterCall → VirtualWriter → VirtualWriter
run [] w = w
run (c ∷ cs) w = run cs (call c w)

-- The DataKind byte of a frame.
abbrev pub kind_of : Bytes → ℕ
kind_of frame = get_or frame 4 0

-- Only frames of kind "D".
abbrev pub all_data : List Bytes → Bool
all_data [] = true
all_data (frame ∷ sent) = kind_of frame == 68 && all_data sent

-- Frames of kind "D", and at most one of kind "d", at the end.
abbrev pub is_ordered : List Bytes → Bool
is_ordered [] = true
is_ordered (frame ∷ sent) =
    if kind_of frame == 68 then is_ordered sent else kind_of frame == 100 && length sent == 0

-- A frame that was built carries the kind that it was built for.
abbrev Carries : ℕ → Option Bytes → Type 0
Carries kind o = (frame : Bytes) → o ≡ some frame → kind_of frame ≡ kind

packed-Carries :
    (port kind pid : ℕ) (from to payload : Bytes) (n : ℕ)
    → Carries kind (pack_header port kind pid from to n >>= (λ header. some (header ++ payload)))
unfolding pack_header
packed-Carries port kind pid from to payload n frame h = ground (arith, h)

encoded-Carries :
    (from to : Option Bytes) (port kind pid : ℕ) (payload : Bytes)
    → Carries kind (
        from >>= (λ a. to >>= (λ b.
          pack_header port kind pid a b (length payload) >>= (λ header. some (header ++ payload)))))
encoded-Carries none to port kind pid payload frame h = absurd (cc h)
encoded-Carries (some a) none port kind pid payload frame h = absurd (cc h)
encoded-Carries (some a) (some b) port kind pid payload frame h =
    packed-Carries port kind pid a b payload (length payload) frame h

build_frame-Carries :
    (port kind : ℕ) (from to : Text) (pid : ℕ) (payload : Bytes)
    → Carries kind (build_frame port kind from to pid payload)
unfolding build_frame
build_frame-Carries port kind from to pid payload frame h =
    encoded-Carries (encode_call from) (encode_call to) port kind pid payload frame h

all_data-append :
    (sent : List Bytes) (frame : Bytes)
    → all_data sent ≡ true
    → kind_of frame ≡ 68
    → all_data (sent ++ frame ∷ []) ≡ true
all_data-append [] frame h k = ground (arith, k)
all_data-append (f ∷ sent) frame h k = ground (arith, h, all_data-append sent frame)

all_data-is_ordered : (sent : List Bytes) → all_data sent ≡ true → is_ordered sent ≡ true
all_data-is_ordered [] h = refl
all_data-is_ordered (f ∷ sent) h = ground (arith, h, all_data-is_ordered sent)

is_ordered-append :
    (sent : List Bytes) (frame : Bytes)
    → all_data sent ≡ true
    → kind_of frame ≡ 100
    → is_ordered (sent ++ frame ∷ []) ≡ true
is_ordered-append [] frame h k = ground (arith, k)
is_ordered-append (f ∷ sent) frame h k = ground (arith, h, is_ordered-append sent frame)

-- Before the closing there are only D frames on the wire.
record IsProper (w : VirtualWriter) : Type 0 where
  before : w.closing ≡ false → all_data w.sent ≡ true
  order : is_ordered w.sent ≡ true

wrote-IsProper :
    (w : VirtualWriter) (o : Option Bytes)
    → Carries 68 o
    → w.closing ≡ false
    → IsProper w
    → IsProper (or_same w (wrote w o))
wrote-IsProper w none c e p = p
wrote-IsProper w (some frame) c e p =
    let longer = all_data-append w.sent frame (p.before e) (c frame refl) in
    record { before = λ h. longer; order = all_data-is_ordered (w.sent ++ frame ∷ []) longer }

disconnected-IsProper :
    (w : VirtualWriter) (o : Option Bytes)
    → Carries 100 o
    → w.closing ≡ true
    → all_data w.sent ≡ true
    → IsProper (disconnected w o)
disconnected-IsProper w none c e h = record {
  before = λ _. h;
  order = all_data-is_ordered w.sent h;
}
disconnected-IsProper w (some frame) c e h = record {
  before = λ f. absurd (true_ne_false (sym e ∙ f));
  order = is_ordered-append w.sent frame h (c frame refl);
}

call-IsProper : (c : WriterCall) (w : VirtualWriter) → IsProper w → IsProper (call c w)
unfolding set_pid mute suppress virtual_write virtual_drain virtual_close
call-IsProper (sets_pid pid) w p = record { before = p.before; order = p.order }
call-IsProper mutes w p = record { before = p.before; order = p.order }
call-IsProper suppresses w p = record { before = p.before; order = p.order }
call-IsProper (writes payload) w p =
    let ok : Option VirtualWriter → Type 0 = λ o. IsProper (or_same w o) in
    let framed : Option VirtualWriter =
      wrote w (build_frame w.port 68 w.local_call w.remote_call w.pid payload) in
    if_cases ok (w.muted || w.closing) (some w) (if length payload == 0 then some w else framed)
      (λ _. p)
      (λ e.
        if_cases ok (length payload == 0) (some w) framed (λ _. p)
          (λ _.
            wrote-IsProper w (build_frame w.port 68 w.local_call w.remote_call w.pid payload)
              (build_frame-Carries w.port 68 w.local_call w.remote_call w.pid payload)
              (ground (arith, e)) p))
call-IsProper (drains times_out) w p =
    let ok : VirtualWriter × Bool → Type 0 = λ d. IsProper d.0 in
    let shut : VirtualWriter × Bool = (record w { closing = true }, true) in
    if_cases ok w.closing (w, false) (if times_out then shut else (w, false)) (λ _. p)
      (λ e.
        if_cases ok times_out shut (w, false)
          (λ _. record { before = λ _. p.before e; order = p.order }) (λ _. p))
call-IsProper closes w p =
    let shut : VirtualWriter = record w { closing = true } in
    let gone : VirtualWriter =
      disconnected shut (build_frame w.port 100 w.local_call w.remote_call 0 []) in
    if_cases IsProper w.closing w (if w.suppress_close then w else gone) (λ _. p)
      (λ e.
        if_cases IsProper w.suppress_close w gone (λ _. p)
          (λ _.
            disconnected-IsProper shut (build_frame w.port 100 w.local_call w.remote_call 0 [])
              (build_frame-Carries w.port 100 w.local_call w.remote_call 0 []) refl (p.before e)))

run-IsProper : (cs : List WriterCall) (w : VirtualWriter) → IsProper w → IsProper (run cs w)
run-IsProper [] w p = p
run-IsProper (c ∷ cs) w p = run-IsProper cs (call c w) (call-IsProper c w p)

-- Whatever a session calls, a writer that has sent only frames with the kind byte "D" sends frames of
-- that kind, then at most one with the kind byte "d", and nothing behind it.
pub run-is_ordered :
    (cs : List WriterCall) (w : VirtualWriter)
    → all_data w.sent ≡ true
    → is_ordered (run cs w).sent ≡ true
run-is_ordered cs w h =
    (run-IsProper cs w (record { before = λ _. h; order = all_data-is_ordered w.sent h })).order
