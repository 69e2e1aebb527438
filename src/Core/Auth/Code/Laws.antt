-- ===== src/Core/Auth/Code/Laws.antt =====
-- The shape of the one-time codes.
use bbs.Prelude.{
  ℕ, ◌+◌, ◌/◌, ◌%◌, ◌^◌, zero, suc, ◌≡◌, refl, true, List, [], ◌∷◌, ◌++◌, arith, length,
  length-append,
}
use bbs.Text.{Text, all_digits}
use bbs.Core.Auth.Code.{zero_filled, hotp_code, truncated, pack_be}
use bbs.Core.Auth.Otp.{is_code}

all_digits-append :
    (s t : Text) → all_digits s ≡ true → all_digits t ≡ true → all_digits (s ++ t) ≡ true
all_digits-append [] t h k = k
all_digits-append (c ∷ s) t h k = ground (arith, all_digits-append s t)

all_digits-zero_filled : (k n : ℕ) → all_digits (zero_filled k n) ≡ true
unfolding zero_filled
all_digits-zero_filled zero n = refl
all_digits-zero_filled (suc k) n =
    all_digits-append (zero_filled k (n / 10)) ((48 + n % 10) ∷ [])
      (all_digits-zero_filled k (n / 10)) (ground arith)

length-zero_filled : (k n : ℕ) → length (zero_filled k n) ≡ k
unfolding zero_filled
length-zero_filled zero n = refl
length-zero_filled (suc k) n = omega (
  arith,
  length-append (zero_filled k (n / 10)) ((48 + n % 10) ∷ []),
  length-zero_filled k (n / 10),
)

is_code-zero_filled : (n : ℕ) → is_code (zero_filled 6 n) ≡ true
unfolding is_code
is_code-zero_filled n = ground (arith, all_digits-zero_filled 6 n, length-zero_filled 6 n)

-- Every computed code passes the format check of the verification.
pub is_code-hotp_code :
    (hmac_sha1 : List ℕ → List ℕ → List ℕ) (secret : List ℕ) (counter : ℕ)
    → is_code (hotp_code hmac_sha1 secret counter) ≡ true
unfolding hotp_code
is_code-hotp_code hmac secret counter =
    is_code-zero_filled (truncated (hmac secret (pack_be 8 counter)) % 10 ^ 6)
