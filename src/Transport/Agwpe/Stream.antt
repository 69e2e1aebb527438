-- ===== src/Transport/Agwpe/Stream.antt =====
-- Frames that are built and read back.
use bbs.Prelude.{
  ℕ, ◌+◌, ◌-◌, ◌≤◌, ◌<◌, zero, suc, Bool, true, false, ◌&&◌, ◌≡◌, refl, sym, ap, ◌∙◌, List, [], ◌∷◌,
  ◌++◌, map, Option, some, arith, ltb, leb, if◌then◌else◌, length, ◌>>=◌, take, drop, get_or,
  replicate, take_all, take-append_left, drop-append_left, drop-append_more, length-append,
  length-replicate, length-take, append_assoc,
}
use bbs.Text.{Text, upper, strip, lstrip, rstrip, is_space}
use bbs.Transport.Agwpe.{
  Bytes, is_ascii, field_10, encode_call, rstrip_nul, nul_cons, replaced, decode_call, le_32,
  from_le, pack_header, build_frame, AgwFrame, data_len, read_frame, none_left, read_loop,
}

-- A character of a callsign: printable, and no small letter.
abbrev pub is_call_char : ℕ → Bool
is_call_char c = leb 33 c && leb c 96

abbrev pub AllCallChars : Text → Type 0
AllCallChars [] = Unit
AllCallChars (c ∷ s) = (is_call_char c ≡ true) × AllCallChars s

upper-call : (s : Text) → AllCallChars s → upper s ≡ s
upper-call [] h = refl
upper-call (c ∷ s) (h, k) = ground (arith, h, upper-call s k)

is_ascii-call : (s : Text) → AllCallChars s → is_ascii s ≡ true
is_ascii-call [] h = refl
is_ascii-call (c ∷ s) (h, k) = ground (arith, h, is_ascii-call s k)

replaced-call : (s : Text) → AllCallChars s → map replaced s ≡ s
replaced-call [] h = refl
replaced-call (c ∷ s) (h, k) = ground (arith, h, replaced-call s k)

rstrip_nul-zeros : (n : ℕ) → rstrip_nul (replicate n 0) ≡ []
unfolding rstrip_nul
rstrip_nul-zeros zero = refl
rstrip_nul-zeros (suc n) = ap (nul_cons 0) (rstrip_nul-zeros n)

rstrip_nul-call : (s : Text) (n : ℕ) → AllCallChars s → rstrip_nul (s ++ replicate n 0) ≡ s
unfolding rstrip_nul
rstrip_nul-call [] n h = rstrip_nul-zeros n
rstrip_nul-call (c ∷ []) n (h, k) = ap (nul_cons c) (rstrip_nul-zeros n) ∙ ground (arith, h)
rstrip_nul-call (c ∷ d ∷ s) n (h, k) = ap (nul_cons c) (rstrip_nul-call (d ∷ s) n k)

rstrip-call : (s : Text) → AllCallChars s → rstrip s ≡ s
unfolding rstrip
rstrip-call [] h = refl
rstrip-call (c ∷ []) (h, k) = ground (arith, h)
rstrip-call (c ∷ d ∷ s) (h, k) = rw (rstrip-call (d ∷ s) k) refl

strip-call : (s : Text) → AllCallChars s → strip s ≡ s
unfolding strip lstrip
strip-call [] h = rstrip-call [] h
strip-call (c ∷ s) (h, k) =
    let plain : is_space c ≡ false = ground (arith, h) in rw plain (rstrip-call (c ∷ s) (h, k))

encode_call-call : (s : Text) → AllCallChars s → length s ≤ 9 → encode_call s ≡ some (s ++ 0 ∷ [])
unfolding encode_call
encode_call-call s h k = rw (upper-call s h, is_ascii-call s h, take_all 9 s k) refl

length-field_10 : (s : Bytes) → length s ≤ 10 → length (field_10 s) ≡ 10
length-field_10 s h =
    let zeros : Bytes = replicate (10 - length s) 0 in
    omega (
      arith,
      length-take 10 (s ++ zeros),
      length-append s zeros,
      length-replicate {A = ℕ} (10 - length s) 0,
    )

decode-field_10 :
    (s : Text) → AllCallChars s → length s ≤ 9 → decode_call (field_10 (s ++ 0 ∷ [])) ≡ s
unfolding decode_call
decode-field_10 s h k =
    let n : ℕ = 10 - length (s ++ 0 ∷ []) in
    let zeros : Bytes = replicate n 0 in
    let whole : take 10 ((s ++ 0 ∷ []) ++ zeros) ≡ s ++ replicate (suc n) 0 =
      take_all 10 ((s ++ 0 ∷ []) ++ zeros) (
        omega (
          arith,
          length-append (s ++ 0 ∷ []) zeros,
          length-append s (0 ∷ []),
          length-replicate {A = ℕ} n 0,
        ))
      ∙ append_assoc s (0 ∷ []) zeros in
    ap (λ q. strip (map replaced (rstrip_nul q))) whole
    ∙ (ap (λ q. strip (map replaced q)) (rstrip_nul-call s (suc n) h)
        ∙ (ap strip (replaced-call s h) ∙ strip-call s h))

from_le-le_32 : (n : ℕ) → n < 2147483648 → from_le (le_32 n) ≡ n
unfolding from_le
from_le-le_32 n h = omega (arith, h)

-- A frame that a station sends: its numbers in range, and callsigns of up to nine characters.
pub record IsFrame (f : AgwFrame) : Type 0 where
  pub port : f.port < 256
  pub kind : f.kind < 256
  pub pid : f.pid < 256
  pub size : length f.payload < 2147483648
  pub from : AllCallChars f.call_from
  pub from_size : length f.call_from ≤ 9
  pub to : AllCallChars f.call_to
  pub to_size : length f.call_to ≤ 9
  pub reserved : f.user_reserved ≡ 0 ∷ 0 ∷ 0 ∷ 0 ∷ []

-- The header of a frame.
abbrev header_of : AgwFrame → Bytes
header_of f =
    (f.port ∷ 0 ∷ 0 ∷ 0 ∷ f.kind ∷ 0 ∷ f.pid ∷ 0 ∷ [])
    ++ (field_10 (f.call_from ++ 0 ∷ [])
        ++ (field_10 (f.call_to ++ 0 ∷ []) ++ (le_32 (length f.payload) ++ (0 ∷ 0 ∷ 0 ∷ 0 ∷ []))))

build_frame-header :
    (f : AgwFrame)
    → IsFrame f
    → build_frame f.port f.kind f.call_from f.call_to f.pid f.payload
      ≡ some (header_of f ++ f.payload)
unfolding build_frame pack_header
build_frame-header f v =
    rw (encode_call-call f.call_from v.from v.from_size, encode_call-call f.call_to v.to v.to_size)
      (ground (arith, v.port, v.kind, v.pid, v.size))

length-call : (s : Text) → length s ≤ 9 → length (field_10 (s ++ 0 ∷ [])) ≡ 10
length-call s h = length-field_10 (s ++ 0 ∷ []) (omega (arith, length-append s (0 ∷ [])))

-- A frame whose header is known is read off its stream.
read_frame-parts :
    (raw payload rest : Bytes)
    → length raw ≡ 36
    → data_len raw ≡ length payload
    → read_frame (raw ++ (payload ++ rest))
      ≡ some (
        record {
          kind = get_or raw 4 0;
          port = get_or raw 0 0;
          call_from = decode_call (take 10 (drop 8 raw));
          call_to = decode_call (take 10 (drop 18 raw));
          pid = get_or raw 6 0;
          payload = payload;
          user_reserved = take 4 (drop 32 raw);
        },
        rest,
      )
unfolding read_frame
read_frame-parts raw payload rest h k =
    let n : ℕ = length payload in
    let total = length-append raw (payload ++ rest) in
    let both = length-append payload rest in
    let long : ltb (length (raw ++ (payload ++ rest))) 36 ≡ false = ground (arith, h, total) in
    let fits : ltb (length (payload ++ rest)) n ≡ false = ground (arith, both) in
    let front : take 36 (raw ++ (payload ++ rest)) ≡ raw =
      take-append_left 36 raw (payload ++ rest) h in
    let back : drop 36 (raw ++ (payload ++ rest)) ≡ payload ++ rest =
      drop-append_left 36 raw (payload ++ rest) h in
    let body : take n (payload ++ rest) ≡ payload = take-append_left n payload rest refl in
    let after : drop n (payload ++ rest) ≡ rest = drop-append_left n payload rest refl in
    rw (long, front, back, k, fits, body, after) refl

-- The fields of a header, behind its callsigns.
length-header : (f : AgwFrame) → IsFrame f → length (header_of f) ≡ 36
length-header f v =
    let a : Bytes = field_10 (f.call_from ++ 0 ∷ []) in
    let b : Bytes = field_10 (f.call_to ++ 0 ∷ []) in
    let tail : Bytes = le_32 (length f.payload) ++ (0 ∷ 0 ∷ 0 ∷ 0 ∷ []) in
    omega (
      arith,
      length-append a (b ++ tail),
      length-append b tail,
      length-call f.call_from v.from_size,
      length-call f.call_to v.to_size,
    )

drop-fields :
    (a b tail : Bytes) (k m : ℕ)
    → length a ≡ 10
    → length b ≡ 10
    → k ≡ 20 + m
    → drop k (a ++ (b ++ tail)) ≡ drop m tail
drop-fields a b tail k m h i e =
    drop-append_more a (b ++ tail) k (10 + m) (omega (arith, h, e))
    ∙ drop-append_more b tail (10 + m) m (omega (arith, i))

data_len-header : (f : AgwFrame) → IsFrame f → data_len (header_of f) ≡ length f.payload
data_len-header f v =
    let n : ℕ = length f.payload in
    let a : Bytes = field_10 (f.call_from ++ 0 ∷ []) in
    let b : Bytes = field_10 (f.call_to ++ 0 ∷ []) in
    let tail : Bytes = le_32 n ++ (0 ∷ 0 ∷ 0 ∷ 0 ∷ []) in
    let size : from_le (take 4 (drop 28 (header_of f))) ≡ n =
      ap (λ q. from_le (take 4 q))
        (drop-fields a b tail 20 0 (length-call f.call_from v.from_size)
          (length-call f.call_to v.to_size) refl)
      ∙ from_le-le_32 n v.size in
    ap (λ k. if ltb k 2147483648 then k else 0) size ∙ ground (arith, v.size)

read_frame-header :
    (f : AgwFrame) (rest : Bytes)
    → IsFrame f
    → read_frame ((header_of f ++ f.payload) ++ rest) ≡ some (f, rest)
read_frame-header f rest v =
    let n : ℕ = length f.payload in
    let a : Bytes = field_10 (f.call_from ++ 0 ∷ []) in
    let b : Bytes = field_10 (f.call_to ++ 0 ∷ []) in
    let tail : Bytes = le_32 n ++ (0 ∷ 0 ∷ 0 ∷ 0 ∷ []) in
    let p : length a ≡ 10 = length-call f.call_from v.from_size in
    let q : length b ≡ 10 = length-call f.call_to v.to_size in
    let from : decode_call (take 10 (a ++ (b ++ tail))) ≡ f.call_from =
      ap decode_call (take-append_left 10 a (b ++ tail) p)
      ∙ decode-field_10 f.call_from v.from v.from_size in
    let to : decode_call (take 10 (drop 10 (a ++ (b ++ tail)))) ≡ f.call_to =
      ap (λ s. decode_call (take 10 s)) (drop-append_left 10 a (b ++ tail) p)
      ∙ (ap decode_call (take-append_left 10 b tail q)
          ∙ decode-field_10 f.call_to v.to v.to_size) in
    let last : take 4 (drop 24 (a ++ (b ++ tail))) ≡ f.user_reserved =
      ap (take 4) (drop-fields a b tail 24 4 p q refl) ∙ sym v.reserved in
    ap read_frame (append_assoc (header_of f) f.payload rest)
    ∙ (read_frame-parts (header_of f) f.payload rest (length-header f v) (data_len-header f v)
        ∙ (λ i. some (
          record {
            kind = f.kind;
            port = f.port;
            call_from = from i;
            call_to = to i;
            pid = f.pid;
            payload = f.payload;
            user_reserved = last i;
          },
          rest,
        )))

-- What a station sends: its frames, one behind another; `none` is an exception.
abbrev pub build_all : List AgwFrame → Option Bytes
build_all [] = some []
build_all (f ∷ fs) =
    build_frame f.port f.kind f.call_from f.call_to f.pid f.payload
    >>= (λ bytes. build_all fs >>= (λ more. some (bytes ++ more)))

abbrev pub AllFrames : List AgwFrame → Type 0
AllFrames [] = Unit
AllFrames (f ∷ fs) = IsFrame f × AllFrames fs

-- The bytes that carry a list of frames.
unfoldable carried : List AgwFrame → Bytes
carried [] = []
carried (f ∷ fs) = (header_of f ++ f.payload) ++ carried fs

build_all-carried : (fs : List AgwFrame) → AllFrames fs → build_all fs ≡ some (carried fs)
unfolding carried
build_all-carried [] h = refl
build_all-carried (f ∷ fs) (v, h) = rw (build_frame-header f v, build_all-carried fs h) refl

read_loop-carried :
    (fs : List AgwFrame) (fuel : ℕ)
    → AllFrames fs
    → length fs ≤ fuel
    → read_loop fuel (carried fs) ≡ fs
unfolding carried read_loop read_frame
read_loop-carried [] zero h k = refl
read_loop-carried (f ∷ fs) zero h k = absurd (omega (arith, k))
read_loop-carried [] (suc fuel) h k = refl
read_loop-carried (f ∷ fs) (suc fuel) (v, h) k =
    ap (λ r. none_left r (read_loop fuel)) (read_frame-header f (carried fs) v)
    ∙ ap (◌∷◌ f) (read_loop-carried fs fuel h (omega (arith, k)))

length-carried : (fs : List AgwFrame) → AllFrames fs → length fs ≤ length (carried fs)
unfolding carried
length-carried [] h = omega arith
length-carried (f ∷ fs) (v, h) = omega (
  arith,
  length-carried fs h,
  length-header f v,
  length-append (header_of f) f.payload,
  length-append (header_of f ++ f.payload) (carried fs),
)

-- Frames that are in range and whose callsigns fit are all built, and the loop that reads what was
-- built, one frame behind another, hands on those frames, with the stream's length as its fuel.
pub read_loop-build_all :
    (fs : List AgwFrame)
    → AllFrames fs
    → build_all fs >>= (λ stream. some (read_loop (length stream) stream)) ≡ some fs
read_loop-build_all fs h =
    ap (λ s. s >>= (λ stream. some (read_loop (length stream) stream))) (build_all-carried fs h)
    ∙ ap some (read_loop-carried fs (length (carried fs)) h (length-carried fs h))
