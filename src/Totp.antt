-- ===== src/Totp.antt =====
-- crates/blackbag-core/src/totp.rs: one-time passwords. HMAC is a parameter; an index out of range, at
-- which the source would panic, is an error of its own here.
pub mod Codes
pub mod Steps
mod Examples
use blackbag.Common.{
  ℕ, zero, suc, ◌+◌, ◌-◌, ◌*◌, ◌/◌, ◌%◌, ◌^◌, ◌<◌, Bool, true, false, not, ◌&&◌, Option, none, some,
  List, [], ◌∷◌, ◌++◌, ltb, leb, ◌==◌, if◌then◌else◌, length, replicate,
}
use Prim.Native.Nat.{bit_and, bit_or}
use blackbag.Common.Bytes.{Bytes, be64}
use blackbag.Common.Result.{Result, ok, err, ensure, ok_or, ◌>>=◌, ◌>>◌}

pub data TotpAlgorithm : Type 0 where
  sha1 sha256 sha512 : TotpAlgorithm

abbrev pub min_digits : ℕ
min_digits = 6

abbrev pub max_digits : ℕ
max_digits = 8

pub data TotpError : Type 0 where
  digits_out_of_range zero_step index_out_of_range : TotpError

-- The key and the message.
abbrev pub Hmac : Type 0
Hmac = TotpAlgorithm → Bytes → Bytes → Bytes

abbrev pub byte_at : Bytes → ℕ → Option ℕ
byte_at [] i = none
byte_at (b ∷ bs) zero = some b
byte_at (b ∷ bs) (suc i) = byte_at bs i

abbrev pub index : Bytes → ℕ → Result TotpError ℕ
index bytes i = ok_or (byte_at bytes i) index_out_of_range

-- The dynamic truncation; a left shift by `k` is a multiplication by 2 ^ k.
unfoldable pub truncate : Bytes → Result TotpError ℕ
truncate bytes = index bytes (length bytes - 1) >>= λ last.
    let offset = bit_and last 0x0f in
    index bytes offset >>= λ b0. index bytes (offset + 1) >>= λ b1.
    index bytes (offset + 2) >>= λ b2. index bytes (offset + 3) >>= λ b3.
    ok (bit_or (bit_or (bit_or (bit_and b0 0x7f * 2 ^ 24) (b1 * 2 ^ 16)) (b2 * 2 ^ 8)) b3)

-- `format!("{:0width$}", n)` for an `n` of at most `width` digits.
unfoldable pub zero_padded : ℕ → ℕ → Bytes
zero_padded zero n = []
zero_padded (suc width) n = zero_padded width (n / 10) ++ (b'0' + n % 10) ∷ []

unfoldable pub hotp : Hmac → Bytes → ℕ → ℕ → TotpAlgorithm → Result TotpError Bytes
hotp hmac secret counter digits algorithm =
    ensure (leb min_digits digits && leb digits max_digits) digits_out_of_range
    >> (truncate (hmac algorithm secret (be64 counter)) >>= λ binary.
        ok (zero_padded digits (binary % 10 ^ digits)))

unfoldable pub totp_at : Hmac → Bytes → ℕ → ℕ → ℕ → TotpAlgorithm → Result TotpError (Bytes × ℕ)
totp_at hmac secret unix_seconds step digits algorithm =
    ensure (not (step == 0)) zero_step
    >> (hotp hmac secret (unix_seconds / step) digits algorithm >>= λ code.
        ok (code, step - unix_seconds % step))
