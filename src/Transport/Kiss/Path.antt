-- ===== src/Transport/Kiss/Path.antt =====
-- The digipeater path of a UI frame, as the decoder walks it.
use bbs.Prelude.{
  ℕ, zero, suc, ◌+◌, ◌/◌, ◌%◌, ◌≤◌, ◌<◌, ◌≡◌, refl, sym, ap, ◌∙◌, Bool, true, false, List, [], ◌∷◌,
  ◌++◌, some, leb, ◌==◌, if◌then◌else◌, length, take, drop, get_elem?, ◌>>=◌, arith, length-append,
  take-append_left, drop-append_left, get_elem?-append_more, append_assoc, append-nil,
}
use bbs.Text.{Text}
use bbs.Ax25.NetromFrame.Wire.{Bytes}
use bbs.Ax25.Address.{format_addr}
use bbs.Ax25.Address.RoundTrip.{formatted}
use bbs.Ax25.Kiss.{path_of, digi_entry, walk_path}
use bbs.Transport.Kiss.{ssid_byte, no_vias, encode_vias}
use bbs.Transport.Kiss.Fields.{
  IsStation, six, field, length-six, length-field, encode_parsed-field, decode_callsign-field,
}

abbrev pub AllStations : List Text → Type 0
AllStations [] = Unit
AllStations (v ∷ vs) = IsStation v × AllStations vs

-- The address fields of a path.
abbrev pub fields : (vs : List Text) → AllStations vs → Bytes
fields [] h = []
fields (v ∷ vs) (s, h) = field s (no_vias vs) false ++ fields vs h

pub encode_vias-fields : (vs : List Text) (h : AllStations vs) → encode_vias vs ≡ some (fields vs h)
unfolding encode_vias
encode_vias-fields [] h = refl
encode_vias-fields (v ∷ vs) (s, h) =
    ap (λ f. f >>= (λ one. encode_vias vs >>= (λ more. some (one ++ more))))
      (encode_parsed-field s (no_vias vs) false)
    ∙ ap (λ f. f >>= (λ more. some (field s (no_vias vs) false ++ more))) (encode_vias-fields vs h)

get_elem?-field :
    {addr : Text} (s : IsStation addr) (last high : Bool) (rest : Bytes)
    → get_elem? (field s last high ++ rest) 6 ≡ some (ssid_byte s.ssid last high)
get_elem?-field s last high rest =
    let b : ℕ = ssid_byte s.ssid last high in
    ap (λ q. get_elem? q 6) (append_assoc (six s) (b ∷ []) rest)
    ∙ get_elem?-append_more (six s) (b ∷ rest) 6 0 (omega (arith, length-six s))

no_high : (ssid : ℕ) (last : Bool) → (ssid_byte ssid last false / 128 % 2 == 1) ≡ false
no_high ssid true =
    let e : ssid_byte ssid true false / 128 % 2 ≡ 0 = omega arith in ap (λ q. q == 1) e
no_high ssid false =
    let e : ssid_byte ssid false false / 128 % 2 ≡ 0 = omega arith in ap (λ q. q == 1) e

last_bit : (ssid : ℕ) (last high : Bool) → (ssid_byte ssid last high % 2 == 1) ≡ last
last_bit ssid true true =
    let e : ssid_byte ssid true true % 2 ≡ 1 = omega arith in ap (λ q. q == 1) e
last_bit ssid true false =
    let e : ssid_byte ssid true false % 2 ≡ 1 = omega arith in ap (λ q. q == 1) e
last_bit ssid false true =
    let e : ssid_byte ssid false true % 2 ≡ 0 = omega arith in ap (λ q. q == 1) e
last_bit ssid false false =
    let e : ssid_byte ssid false false % 2 ≡ 0 = omega arith in ap (λ q. q == 1) e

digi_entry-field :
    {addr : Text} (s : IsStation addr) (last : Bool) (via : List Text)
    → digi_entry (field s last false) via ≡ some (via ++ addr ∷ [])
unfolding digi_entry
digi_entry-field {addr} s last via =
    let b : ℕ = ssid_byte s.ssid last false in
    let bit : get_elem? (field s last false) 6 ≡ some b =
      get_elem?-append_more (six s) (b ∷ []) 6 0 (omega (arith, length-six s)) in
    let low : (b / 128 % 2 == 1) ≡ false = no_high s.ssid last in
    let long : leb 1 (length s.call) ≡ true = ground (arith, s.some_chars) in
    let shown : format_addr s.call s.ssid ≡ some addr =
      formatted s.call s.ssid s.chars s.ssid_range ∙ ap some (sym s.shown) in
    rw (decode_callsign-field s last false, bit, low, long, shown) refl

-- One round of the walk: the field at the offset joins the path, and its last bit tells whether the
-- walk goes on.
walk-field :
    {addr : Text} (fuel offset : ℕ) (pre rest : Bytes) (via : List Text) (s : IsStation addr)
    (last : Bool)
    → length pre ≡ offset
    → walk_path (suc fuel) (pre ++ (field s last false ++ rest)) offset via ≡ (
        if last
        then some (via ++ addr ∷ [], offset + 7)
        else walk_path fuel (pre ++ (field s last false ++ rest)) (offset + 7) (via ++ addr ∷ []))
unfolding walk_path
walk-field {addr} fuel offset pre rest via s last h =
    let f : Bytes = field s last false in
    let whole : Bytes = pre ++ (f ++ rest) in
    let digi : take 7 (drop offset whole) ≡ f =
      ap (take 7) (drop-append_left offset pre (f ++ rest) h)
      ∙ take-append_left 7 f rest (length-field s last false) in
    let bit : get_elem? f 6 ≡ some (ssid_byte s.ssid last false) =
      get_elem?-append_more (six s) (ssid_byte s.ssid last false ∷ []) 6 0
        (omega (arith, length-six s)) in
    let long : leb (offset + 7) (length whole) ≡ true =
      ground (
        arith,
        h,
        length-append pre (f ++ rest),
        length-append f rest,
        length-field s last false,
      ) in
    rw (long, digi, digi_entry-field s last via, bit, last_bit s.ssid last false) refl

walk_path-fields :
    (v : Text) (vs : List Text) (h : AllStations (v ∷ vs)) (fuel offset : ℕ) (pre rest : Bytes)
    (via : List Text)
    → length pre ≡ offset
    → length vs < fuel
    → walk_path fuel (pre ++ (fields (v ∷ vs) h ++ rest)) offset via
      ≡ some (via ++ v ∷ vs, offset + length (fields (v ∷ vs) h))
walk_path-fields v vs h zero offset pre rest via l k = absurd (omega (arith, k))
walk_path-fields v [] (s, h) (suc fuel) offset pre rest via l k =
    let f : Bytes = field s true false in
    ap (λ q. walk_path (suc fuel) (pre ++ (q ++ rest)) offset via) (append-nil f)
    ∙ (walk-field fuel offset pre rest via s true l
        ∙ ap (λ n. some (via ++ v ∷ [], offset + n))
            (sym (ap length (append-nil f) ∙ length-field s true false)))
walk_path-fields v (u ∷ us) (s, h) (suc fuel) offset pre rest via l k =
    let f : Bytes = field s false false in
    let more : Bytes = fields (u ∷ us) h in
    let again : pre ++ (f ++ (more ++ rest)) ≡ (pre ++ f) ++ (more ++ rest) =
      sym (append_assoc pre f (more ++ rest)) in
    ap (λ q. walk_path (suc fuel) (pre ++ q) offset via) (append_assoc f more rest)
    ∙ (walk-field fuel offset pre (more ++ rest) via s false l
        ∙ (ap (λ q. walk_path fuel q (offset + 7) (via ++ v ∷ [])) again
            ∙ (walk_path-fields u us h fuel (offset + 7) (pre ++ f) rest (via ++ v ∷ [])
                  (omega (arith, l, length-append pre f, length-field s false false))
                  (omega (arith, k))
                ∙ (λ i. some (
                  append_assoc via (v ∷ []) (u ∷ us) i,
                  (let e : (offset + 7) + length more ≡ offset + length (f ++ more) =
                          omega (arith, length-append f more, length-field s false false) in
                        e)
                      i,
                )))))

length-fields : (vs : List Text) (h : AllStations vs) → length vs ≤ length (fields vs h)
length-fields [] h = omega arith
length-fields (v ∷ vs) (s, h) = omega (
  arith,
  length-fields vs h,
  length-field s (no_vias vs) false,
  length-append (field s (no_vias vs) false) (fields vs h),
)

-- The path behind the two addresses of a frame.
pub path-fields :
    {src : Text} (s : IsStation src) (to : Bytes) (via : List Text) (h : AllStations via)
    (rest : Bytes)
    → length to ≡ 7
    → (let ax25 = to ++ (field s (no_vias via) false ++ (fields via h ++ rest)) in
        get_elem? ax25 13 >>= path_of ax25)
      ≡ some (via, 14 + length (fields via h))
path-fields s to [] h rest l =
    let bit : get_elem? (to ++ (field s true false ++ rest)) 13
        ≡ some (ssid_byte s.ssid true false) =
      get_elem?-append_more to (field s true false ++ rest) 13 6 (omega (arith, l))
      ∙ get_elem?-field s true false rest in
    rw (bit, last_bit s.ssid true false) refl
path-fields s to (v ∷ vs) h rest l =
    let from : Bytes = field s false false in
    let more : Bytes = fields (v ∷ vs) h ++ rest in
    let whole : Bytes = to ++ (from ++ more) in
    let bit : get_elem? whole 13 ≡ some (ssid_byte s.ssid false false) =
      get_elem?-append_more to (from ++ more) 13 6 (omega (arith, l))
      ∙ get_elem?-field s false false more in
    let fuel : length vs < length whole = omega (
      arith,
      l,
      length-fields (v ∷ vs) h,
      length-append to (from ++ more),
      length-append from more,
      length-append (fields (v ∷ vs) h) rest,
    ) in
    rw (bit, last_bit s.ssid false false)
      (ap (λ q. walk_path (length whole) q 14 []) (sym (append_assoc to from more))
        ∙ walk_path-fields v vs h (length whole) 14 (to ++ from) rest []
            (omega (arith, l, length-append to from, length-field s false false)) fuel)
