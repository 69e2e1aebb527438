-- ===== src/Transport/Kiss.antt =====
-- bbs/transport/kiss.py: the UI frames that a station builds itself.
pub mod Fields
pub mod Path
pub mod Laws
mod Tests
use bbs.Prelude.{
  ℕ, ◌+◌, ◌*◌, ◌%◌, Bool, true, false, List, [], ◌∷◌, ◌++◌, Option, none, some, ltb, if◌then◌else◌,
  take, ◌>>=◌,
}
use bbs.Text.{Text, upper, ljust}
use bbs.Ax25.NetromFrame.Wire.{Bytes}
use bbs.Ax25.Address.{parse}

-- bytes((ord(c) << 1) for c in padded); `none` is the ValueError for a byte above 255.
unfoldable pub shifted : Text → Option Bytes
shifted [] = some []
shifted (c ∷ s) = shifted s >>= (λ bytes. if ltb c 128 then some (c * 2 ∷ bytes) else none)

-- 0x60 | ((ssid & 0x0F) << 1) | last, with 0x80 for the high bit.
abbrev pub ssid_byte : ℕ → Bool → Bool → ℕ
ssid_byte ssid last high_bit =
    96 + ssid % 16 * 2 + (if last then 1 else 0) + (if high_bit then 128 else 0)

unfoldable pub encode_addr : Text → ℕ → Bool → Bool → Option Bytes
encode_addr callsign ssid last high_bit =
    shifted (take 6 (ljust 6 (upper callsign)))
    >>= (λ encoded. some (encoded ++ ssid_byte ssid last high_bit ∷ []))

-- encode_addr(*parse(v), last)
abbrev pub encode_parsed : Text → Bool → Bool → Option Bytes
encode_parsed addr last high_bit = parse addr >>= (λ p. encode_addr p.0 p.1 last high_bit)

abbrev pub no_vias : List Text → Bool
no_vias [] = true
no_vias (v ∷ vs) = false

unfoldable pub encode_vias : List Text → Option Bytes
encode_vias [] = some []
encode_vias (v ∷ vs) =
    encode_parsed v (no_vias vs) false
    >>= (λ field. encode_vias vs >>= (λ fields. some (field ++ fields)))

-- The control byte of a UI frame, and the PID of no layer 3.
unfoldable pub build_ax25_ui_frame : Text → Text → Bytes → List Text → Option Bytes
build_ax25_ui_frame src dest payload via = encode_parsed dest false true >>= (λ to.
    encode_parsed src (no_vias via) false >>= (λ from.
      encode_vias via >>= (λ fields. some ((to ++ (from ++ fields)) ++ (3 ∷ 240 ∷ payload)))))
