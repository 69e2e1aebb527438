-- ===== src/Ax25/Address/Tests.antt =====
-- Runs of the address helpers.
use bbs.Prelude.{◌≡◌, refl, none, some, ◌>>=◌, arith}
use bbs.Text.{codes, strip, rstrip, lstrip, before_dash, parse_int, digits_from}
use bbs.Ax25.Address.{
  parse, format_addr, match_callsign, is_base, all_call_chars, from_dash, suffix_ssid, check_ssid,
}
use bbs.Ax25.Address.RoundTrip.{parse-format_addr}

parse-format_addr_example : (format_addr (codes "W1AW") 3 >>= parse) ≡ some (codes "W1AW", 3)
parse-format_addr_example =
    parse-format_addr (codes "W1AW") 3 (refl, (refl, (refl, (refl, tt)))) (omega arith)
      (omega arith) (omega arith)

-- An SSID above 15 is refused.
parse_run : parse (codes " w1aw-16") ≡ none
unfolding parse match_callsign is_base all_call_chars from_dash suffix_ssid check_ssid strip rstrip
    lstrip before_dash parse_int digits_from
parse_run = refl
