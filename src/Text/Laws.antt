-- ===== src/Text/Laws.antt =====
-- Laws of the text operations.
use bbs.Prelude.{ℕ, ◌<◌, ◌≡◌, refl, [], ◌∷◌, some, arith}
use bbs.Text.{Text, upper, upper_char, parse_int, decimal}

upper_char_idem : (c : ℕ) → upper_char (upper_char c) ≡ upper_char c
upper_char_idem c = ground arith

pub upper-upper : (s : Text) → upper (upper s) ≡ upper s
upper-upper [] = refl
upper-upper (c ∷ s) = ground (arith, upper_char_idem c, upper-upper s)

pub parse_int-decimal : (n : ℕ) → n < 100 → parse_int (decimal n) ≡ some n
unfolding parse_int decimal
parse_int-decimal n h = ground arith
