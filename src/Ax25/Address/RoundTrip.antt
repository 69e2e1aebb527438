-- ===== src/Ax25/Address/RoundTrip.antt =====
-- Round trip of the addresses of bbs/ax25/address.py.
use bbs.Prelude.{
  ℕ, ◌≤◌, ◌<◌, ◌≡◌, refl, true, false, [], ◌∷◌, ◌++◌, some, ltb, ◌==◌, length, ◌>>=◌, arith,
  Bool-cases, inl, inr, append-nil,
}
use bbs.Text.{Text, strip, lstrip, rstrip, before_dash, is_space, decimal}
use bbs.Ax25.NetromFrame.Wire.{show_call}
use bbs.Ax25.NetromFrame.WireLaws.{CallChars, upper-CallChars, upper-show_call}
use bbs.Ax25.Address.{
  all_call_chars, is_base, from_dash, suffix_ssid, match_callsign, check_ssid, parse, format_addr,
}

abbrev NoSpace : Text → Type 0
NoSpace [] = Unit
NoSpace (c ∷ s) = (is_space c ≡ false) × NoSpace s

lstrip-NoSpace : (s : Text) → NoSpace s → lstrip s ≡ s
unfolding lstrip
lstrip-NoSpace [] h = refl
lstrip-NoSpace (c ∷ s) h = ground (arith, h.0)

rstrip-NoSpace : (s : Text) → NoSpace s → rstrip s ≡ s
unfolding rstrip
rstrip-NoSpace [] h = refl
rstrip-NoSpace (c ∷ []) h = ground (arith, h.0)
rstrip-NoSpace (c ∷ d ∷ s) h = rw (rstrip-NoSpace (d ∷ s) h.1)

strip-NoSpace : (s : Text) → NoSpace s → strip s ≡ s
unfolding strip
strip-NoSpace s h = rw (lstrip-NoSpace s h) (rstrip-NoSpace s h)

CallChars-NoSpace : (s t : Text) → CallChars s → NoSpace t → NoSpace (s ++ t)
CallChars-NoSpace [] t h k = k
CallChars-NoSpace (c ∷ s) t h k = (ground (arith, h.0), CallChars-NoSpace s t h.1 k)

decimal-NoSpace : (n : ℕ) → n < 100 → NoSpace (decimal n)
unfolding decimal
decimal-NoSpace n h = ground arith

show_call-NoSpace :
    (call : Text) (ssid : ℕ) → CallChars call → ssid < 16 → NoSpace (show_call call ssid)
unfolding show_call
show_call-NoSpace call ssid h k = elim (Bool-cases (ssid == 0)) [
  | inl e ↦ rw e (rw (append-nil call) at (CallChars-NoSpace call [] h tt))
  | inr e ↦
      rw e (CallChars-NoSpace call (45 ∷ decimal ssid) h (refl, decimal-NoSpace ssid (omega arith)))
]

all_call_chars-CallChars : (s : Text) → CallChars s → all_call_chars s ≡ true
unfolding all_call_chars
all_call_chars-CallChars [] h = refl
all_call_chars-CallChars (c ∷ s) h = ground (arith, h.0, all_call_chars-CallChars s h.1)

before_dash-CallChars : (s t : Text) → CallChars s → before_dash (s ++ 45 ∷ t) ≡ s
unfolding before_dash
before_dash-CallChars [] t h = refl
before_dash-CallChars (c ∷ s) t h = ground (arith, h.0, before_dash-CallChars s t h.1)

from_dash-CallChars : (s t : Text) → CallChars s → from_dash (s ++ 45 ∷ t) ≡ 45 ∷ t
unfolding from_dash
from_dash-CallChars [] t h = refl
from_dash-CallChars (c ∷ s) t h = ground (arith, h.0, from_dash-CallChars s t h.1)

no_dash : (s : Text) → CallChars s → (before_dash s ≡ s) × (from_dash s ≡ [])
unfolding before_dash from_dash
no_dash [] h = (refl, refl)
no_dash (c ∷ s) h = ground (arith, h.0, no_dash s h.1)

suffix_ssid-decimal : (n : ℕ) → n < 16 → suffix_ssid (45 ∷ decimal n) ≡ some n
unfolding suffix_ssid decimal
suffix_ssid-decimal n h = ground arith

match-show_call :
    (call : Text) (ssid : ℕ)
    → CallChars call
    → 1 ≤ length call
    → length call ≤ 6
    → ssid < 16
    → match_callsign (show_call call ssid) ≡ some (call, ssid)
unfolding match_callsign show_call is_base
match-show_call call ssid h lo hi k =
    let plain : (before_dash call ≡ call) × (from_dash call ≡ []) = no_dash call h in
    let chars : all_call_chars call ≡ true = all_call_chars-CallChars call h in
    elim (Bool-cases (ssid == 0)) [
      | inl e ↦
          let z : ssid ≡ 0 = ground arith in
          rw e (rw (plain.0, plain.1) (rw chars (unfold suffix_ssid in ground (arith, lo, hi, z))))
      | inr e ↦ rw e (
          rw
            (before_dash-CallChars call (decimal ssid) h, from_dash-CallChars call (decimal ssid) h)
            (rw (chars, suffix_ssid-decimal ssid k) (ground (arith, lo, hi))))
    ]

pub parsed :
    (call : Text) (ssid : ℕ)
    → CallChars call
    → 1 ≤ length call
    → length call ≤ 6
    → ssid < 16
    → parse (show_call call ssid) ≡ some (call, ssid)
unfolding parse check_ssid
parsed call ssid h lo hi k =
    let t : Text = show_call call ssid in
    rw (strip-NoSpace t (show_call-NoSpace call ssid h k))
      (rw (upper-show_call call ssid h k) (rw (match-show_call call ssid h lo hi k) (ground arith)))

pub strip-CallChars : (call : Text) → CallChars call → strip call ≡ call
strip-CallChars call h =
    strip-NoSpace call (rw (append-nil call) at (CallChars-NoSpace call [] h tt))

pub formatted :
    (call : Text) (ssid : ℕ)
    → CallChars call
    → ssid < 16
    → format_addr call ssid ≡ some (show_call call ssid)
unfolding format_addr show_call
formatted call ssid h k =
    let low : ltb 15 ssid ≡ false = ground arith in
    rw (upper-CallChars call h) (rw (strip-CallChars call h) (rw low refl))

-- A callsign of one to six capital letters and digits and an SSID below 16 are formatted without an
-- error, and `parse` reads both back from the text.
pub parse-format_addr :
    (call : Text) (ssid : ℕ)
    → CallChars call
    → 1 ≤ length call
    → length call ≤ 6
    → ssid < 16
    → (format_addr call ssid >>= parse) ≡ some (call, ssid)
parse-format_addr call ssid h lo hi k = rw (formatted call ssid h k) (parsed call ssid h lo hi k)
