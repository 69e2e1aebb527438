-- ===== src/Ax25/Address.antt =====
-- bbs/ax25/address.py. `none` is ValueError.
pub mod RoundTrip
mod Tests
use bbs.Prelude.{
  ℕ, Bool, true, ◌&&◌, ◌||◌, [], ◌∷◌, ◌++◌, Option, none, some, ltb, leb, ◌==◌, if◌then◌else◌,
  length, ◌>>=◌,
}
use bbs.Text.{Text, upper, strip, before_dash, is_digit, is_upper, parse_int, decimal}

unfoldable pub all_call_chars : Text → Bool
all_call_chars [] = true
all_call_chars (c ∷ s) = (is_digit c || is_upper c) && all_call_chars s

-- [A-Z0-9]{1,6}
unfoldable pub is_base : Text → Bool
unfolding all_call_chars
is_base s = all_call_chars s && leb 1 (length s) && leb (length s) 6

-- The text from the first dash on.
unfoldable pub from_dash : Text → Text
from_dash [] = []
from_dash (c ∷ s) = let rest = from_dash s in if c == 45 then c ∷ s else rest

-- (?:-(\d{1,2}))?$ and the number of its group, 0 where the group is absent.
unfoldable pub suffix_ssid : Text → Option ℕ
unfolding parse_int
suffix_ssid [] = some 0
suffix_ssid (c ∷ x ∷ []) = if c == 45 && is_digit x then parse_int (x ∷ []) else none
suffix_ssid (c ∷ x ∷ y ∷ []) =
    if c == 45 && is_digit x && is_digit y then parse_int (x ∷ y ∷ []) else none
suffix_ssid _ = none

-- A base callsign holds no dash, so the match splits the text at its first dash.
unfoldable pub match_callsign : Text → Option (Text × ℕ)
unfolding is_base from_dash suffix_ssid before_dash
match_callsign s =
    if is_base (before_dash s)
    then (do ssid ← suffix_ssid (from_dash s); some (before_dash s, ssid))
    else none

unfoldable pub check_ssid : Text × ℕ → Option (Text × ℕ)
check_ssid (call, ssid) = if ltb 15 ssid then none else some (call, ssid)

unfoldable pub parse : Text → Option (Text × ℕ)
unfolding match_callsign check_ssid strip
parse addr = match_callsign (upper (strip addr)) >>= check_ssid

unfoldable pub format_addr : Text → ℕ → Option Text
unfolding strip decimal
format_addr callsign ssid =
    let call = strip (upper callsign) in
    if ltb 15 ssid then none else some (if ssid == 0 then call else call ++ 45 ∷ decimal ssid)

unfoldable pub callsign_only : Text → Option Text
unfolding parse
callsign_only addr = do m ← parse addr; some (m.0)
