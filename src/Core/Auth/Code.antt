-- ===== src/Core/Auth/Code.antt =====
-- The one-time codes of bbs/core/auth.py. The digest HMAC-SHA1, 20 bytes of a library, is a
-- parameter: `hmac_sha1 secret message`.
pub mod Laws
use bbs.Prelude.{
  ℕ, ◌+◌, ◌-◌, ◌*◌, ◌/◌, ◌%◌, ◌^◌, zero, suc, List, [], ◌∷◌, ◌++◌, Option, none, some, ltb, ◌==◌,
  if◌then◌else◌, take, drop, get_or, ◌||◌,
}
use bbs.Text.{Text}

-- The n low bytes of a number, the highest first: struct.pack(">Q", c) with n = 8, for a counter
-- below 2 ^ 64, as those of the database and of the clock are.
unfoldable pub pack_be : ℕ → ℕ → List ℕ
pack_be zero c = []
pack_be (suc n) c = pack_be n (c / 256) ++ (c % 256) ∷ []

-- struct.unpack(">I", s)[0] on four bytes
unfoldable pub unpack_be : ℕ → List ℕ → ℕ
unpack_be n [] = n
unpack_be n (b ∷ s) = unpack_be (n * 256 + b) s

-- str(n).zfill(k) for n < 10 ^ k
unfoldable pub zero_filled : ℕ → ℕ → Text
zero_filled zero n = []
zero_filled (suc k) n = zero_filled k (n / 10) ++ (48 + n % 10) ∷ []

-- `& 0x0F` and `& 0x7FFFFFFF` keep the low four and the low 31 bits.
unfoldable pub truncated : List ℕ → ℕ
truncated digest =
    let offset = get_or digest 19 0 % 16 in unpack_be 0 (take 4 (drop offset digest)) % 2 ^ 31

module _ (hmac_sha1 : List ℕ → List ℕ → List ℕ) where
  unfoldable pub hotp_code : List ℕ → ℕ → Text
  hotp_code secret counter =
      zero_filled 6 (truncated (hmac_sha1 secret (pack_be 8 counter)) % 10 ^ 6)

  -- The codes of the steps t - 1, t and t + 1. At a time step of 0, or before the first step,
  -- the source raises.
  unfoldable pub totp_window : ℕ → ℕ → List ℕ → Option (List Text)
  totp_window now time_step secret =
      let t = now / time_step in
      if time_step == 0 || t == 0
      then none
      else some (hotp_code secret (t - 1) ∷ hotp_code secret t ∷ hotp_code secret (t + 1) ∷ [])
