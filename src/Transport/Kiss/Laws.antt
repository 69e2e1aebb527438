-- ===== src/Transport/Kiss/Laws.antt =====
-- What a UI frame of bbs/transport/kiss.py is to the decoder of bbs/ax25/kiss_frame.py.
use bbs.Prelude.{
  ℕ, ◌+◌, ◌≡◌, refl, sym, ap, ◌∙◌, true, false, List, ◌∷◌, ◌++◌, some, ltb, leb, length, take, drop,
  get_elem?, ◌>>=◌, arith, length-append, take-append_left, drop-append_left, drop-append_more,
  get_elem?-append_more, append_assoc,
}
use bbs.Text.{Text}
use bbs.Ax25.NetromFrame.Wire.{Bytes}
use bbs.Ax25.Kiss.{KissFrame, format_field, decode_ax25, decode_info, path_of}
use bbs.Transport.Kiss.{no_vias, build_ax25_ui_frame}
use bbs.Transport.Kiss.Fields.{
  IsStation, field, length-field, encode_parsed-field, format_field-field,
}
use bbs.Transport.Kiss.Path.{AllStations, fields, encode_vias-fields, path-fields}

-- The information of a UI frame behind its addresses.
decode_info-ui :
    (pre : Bytes) (offset port : ℕ) (payload : Bytes) (dest src : Text) (via : List Text)
    → length pre ≡ offset
    → decode_info (pre ++ (3 ∷ 240 ∷ payload)) port offset dest src via
      ≡ some (
          some (record {
            port = port;
            dest_call = dest;
            src_call = src;
            is_ui = true;
            pid = 240;
            payload = payload;
            via = via;
          }))
unfolding decode_info
decode_info-ui pre offset port payload dest src via h =
    let rest : Bytes = 3 ∷ 240 ∷ payload in
    let total = length-append pre rest in
    let here : leb (length (pre ++ rest)) offset ≡ false = ground (arith, h, total) in
    let next : ltb (length (pre ++ rest)) (offset + 2) ≡ false = ground (arith, h, total) in
    let control : get_elem? (pre ++ rest) offset ≡ some 3 =
      get_elem?-append_more pre rest offset 0 (omega (arith, h)) in
    let pid : get_elem? (pre ++ rest) (offset + 1) ≡ some 240 =
      get_elem?-append_more pre rest (offset + 1) 1 (omega (arith, h)) in
    let body : drop (offset + 2) (pre ++ rest) ≡ payload =
      drop-append_more pre rest (offset + 2) 2 (omega (arith, h)) in
    rw (here, next, control, pid, body) refl

-- The frame that the builder makes, as the decoder reads it.
abbrev pub ui_frame : ℕ → Text → Text → Bytes → List Text → KissFrame
ui_frame port src dest payload via = record {
  port = port;
  dest_call = dest;
  src_call = src;
  is_ui = true;
  pid = 240;
  payload = payload;
  via = via;
}

abbrev built :
    {src dest : Text}
    → IsStation src
    → IsStation dest
    → Bytes
    → (via : List Text) → AllStations via
    → Bytes
built s d payload via h =
    (field d false true ++ (field s (no_vias via) false ++ fields via h)) ++ (3 ∷ 240 ∷ payload)

build_ax25_ui_frame-built :
    {src dest : Text} (s : IsStation src) (d : IsStation dest) (payload : Bytes) (via : List Text)
    (h : AllStations via)
    → build_ax25_ui_frame src dest payload via ≡ some (built s d payload via h)
unfolding build_ax25_ui_frame
build_ax25_ui_frame-built s d payload via h =
    rw
      (
        encode_parsed-field d false true,
        encode_parsed-field s (no_vias via) false,
        encode_vias-fields via h,
      )
      refl

decode_ax25-parts :
    (whole : Bytes) (port n : ℕ) (dest src : Text) (via : List Text) (frame : KissFrame)
    → ltb (length whole) 15 ≡ false
    → (get_elem? whole 13 >>= path_of whole) ≡ some (via, n)
    → format_field (take 7 whole) ≡ some dest
    → format_field (take 7 (drop 7 whole)) ≡ some src
    → decode_info whole port n dest src via ≡ some (some frame)
    → decode_ax25 whole port ≡ some (some frame)
unfolding decode_ax25
decode_ax25-parts whole port n dest src via frame long walked first second info =
    rw (long, first, second, walked, info) refl

decode_ax25-built :
    {src dest : Text} (s : IsStation src) (d : IsStation dest) (payload : Bytes) (via : List Text)
    (h : AllStations via) (port : ℕ)
    → decode_ax25 (built s d payload via h) port ≡ some (some (ui_frame port src dest payload via))
decode_ax25-built {src} {dest} s d payload via h port =
    let to : Bytes = field d false true in
    let from : Bytes = field s (no_vias via) false in
    let path : Bytes = fields via h in
    let rest : Bytes = 3 ∷ 240 ∷ payload in
    let whole : Bytes = to ++ (from ++ (path ++ rest)) in
    let same : (to ++ (from ++ path)) ++ rest ≡ whole =
      append_assoc to (from ++ path) rest ∙ ap (λ q. to ++ q) (append_assoc from path rest) in
    let lt : length to ≡ 7 = length-field d false true in
    let lf : length from ≡ 7 = length-field s (no_vias via) false in
    let long : ltb (length whole) 15 ≡ false = ground (
      arith,
      lt,
      lf,
      length-append to (from ++ (path ++ rest)),
      length-append from (path ++ rest),
      length-append path rest,
    ) in
    let walked = path-fields s to via h rest lt in
    let first : format_field (take 7 whole) ≡ some dest =
      ap format_field (take-append_left 7 to (from ++ (path ++ rest)) lt)
      ∙ format_field-field d false true in
    let second : format_field (take 7 (drop 7 whole)) ≡ some src =
      ap (λ q. format_field (take 7 q)) (drop-append_left 7 to (from ++ (path ++ rest)) lt)
      ∙ (ap format_field (take-append_left 7 from (path ++ rest) lf)
          ∙ format_field-field s (no_vias via) false) in
    let info : decode_info whole port (14 + length path) dest src via
        ≡ some (some (ui_frame port src dest payload via)) =
      ap (λ q. decode_info q port (14 + length path) dest src via) (sym same)
      ∙ decode_info-ui (to ++ (from ++ path)) (14 + length path) port payload dest src via
          (omega (arith, lt, lf, length-append to (from ++ path), length-append from path)) in
    ap (λ q. decode_ax25 q port) same
    ∙ decode_ax25-parts whole port (14 + length path) dest src via
        (ui_frame port src dest payload via) long walked first second info

-- A UI frame is built without an error for stations of one to six capital letters and digits with an
-- SSID below 16, and decodes to its two stations, its payload, the PID 0xF0, and its path with no
-- digipeater marked as passed, however long the path is.
pub decode-build_ax25_ui_frame :
    (src dest : Text) (payload : Bytes) (via : List Text) (port : ℕ)
    → IsStation src
    → IsStation dest
    → AllStations via
    → build_ax25_ui_frame src dest payload via >>= (λ ax25. decode_ax25 ax25 port)
      ≡ some (some (ui_frame port src dest payload via))
decode-build_ax25_ui_frame src dest payload via port s d h =
    ap (λ f. f >>= (λ ax25. decode_ax25 ax25 port)) (build_ax25_ui_frame-built s d payload via h)
    ∙ decode_ax25-built s d payload via h port
