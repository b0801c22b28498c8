-- ===== src/Totp/Examples.antt =====
-- A constant MAC that has the digest of the example of RFC 4226, section 5.4.
use blackbag.Common.{ℕ, ◌+◌, ◌-◌, ◌%◌, ◌^◌, ◌<◌, ◌≤◌, ◌≡◌, refl, [], ◌∷◌, arith, length, All}
use blackbag.Common.Bytes.{Bytes, are_bytes-IsByte}
use blackbag.Common.Result.{ok, err}
use blackbag.Totp.{Hmac, sha1, digits_out_of_range, zero_step, truncate, zero_padded, hotp, totp_at}
use blackbag.Totp.Codes.{IsDigit, IsMac, IsTruncated, decimal, hotp-IsTruncated}
use blackbag.Totp.Steps.{totp_at-bounds, totp_at-ttl}

abbrev digest : Bytes
digest =
    0x1f ∷ 0x86 ∷ 0x98 ∷ 0x69 ∷ 0x0e ∷ 0x02 ∷ 0xca ∷ 0x16 ∷ 0x61 ∷ 0x85 ∷ 0x50 ∷ 0xef ∷ 0x7f ∷ 0x19
    ∷ 0xda ∷ 0x8e ∷ 0x94 ∷ 0x5b ∷ 0x55 ∷ 0x5a ∷ []

abbrev hmac : Hmac
hmac algorithm secret message = digest

hmac-IsMac : IsMac hmac
hmac-IsMac algorithm secret message = (are_bytes-IsByte digest refl, omega arith)

-- 872921, as the RFC says.
abbrev code : Bytes
code = b'8' ∷ b'7' ∷ b'2' ∷ b'9' ∷ b'2' ∷ b'1' ∷ []

hotp-rfc : hotp hmac [] 0 6 sha1 ≡ ok code
unfolding hotp truncate zero_padded
hotp-rfc = refl

hotp-nine_digits : hotp hmac [] 0 9 sha1 ≡ err digits_out_of_range
unfolding hotp
hotp-nine_digits = refl

totp_at-59 : totp_at hmac [] 59 30 6 sha1 ≡ ok (code, 1)
unfolding totp_at hotp truncate zero_padded
totp_at-59 = refl

totp_at-no_step : totp_at hmac [] 59 0 6 sha1 ≡ err zero_step
unfolding totp_at
totp_at-no_step = refl

totp_at-31 : totp_at hmac [] 31 30 6 sha1 ≡ ok (code, 29)
unfolding totp_at hotp truncate zero_padded
totp_at-31 = refl

totp_at-bounds_example : (0 < 29) × (29 ≤ 30)
totp_at-bounds_example = totp_at-bounds hmac [] 31 30 6 sha1 code 29 totp_at-31

totp_at-ttl_example : totp_at hmac [] (31 + 28) 30 6 sha1 ≡ ok (code, 29 - 28)
totp_at-ttl_example = totp_at-ttl hmac [] 31 30 6 sha1 code 29 28 totp_at-31 (omega arith)

hotp-IsTruncated_example :
    (c : Bytes) × (binary : ℕ) × (hotp hmac [] 0 6 sha1 ≡ ok c)
    × (length c ≡ 6)
    × All IsDigit c
    × (decimal 0 c ≡ binary % 10 ^ 6)
    × IsTruncated digest binary
hotp-IsTruncated_example = hotp-IsTruncated hmac [] 0 6 sha1 hmac-IsMac (omega arith) (omega arith)
