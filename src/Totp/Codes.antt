-- ===== src/Totp/Codes.antt =====
-- The code has as many digits as were asked for, and it is the number of RFC 4226.
use blackbag.Common.{
  ℕ, zero, suc, ◌+◌, ◌-◌, ◌*◌, ◌/◌, ◌%◌, ◌^◌, ◌<◌, ◌≤◌, ◌≡◌, refl, ap, ◌∙◌, true, some, [], ◌∷◌,
  ◌++◌, arith, leb, length, length-append, All,
}
use Prim.Native.Nat.{bit_and, bit_or}
use native.Mathlib.Nat.{pow-suc, one-le-pow, mod-lt}
use blackbag.Common.Bits.{bit_or-fields}
use blackbag.Common.Bytes.{Bytes, IsByte, from_be32, be64, low_bits, low_nibble}
use blackbag.Common.Result.{ok}
use blackbag.Totp.{
  TotpAlgorithm, Hmac, min_digits, max_digits, byte_at, index, truncate, zero_padded, hotp,
}

abbrev pub IsDigit : ℕ → Type 0
IsDigit b = (b'0' ≤ b) × (b ≤ b'9')

-- A MAC is at least twenty bytes, as those of SHA-1, SHA-256 and SHA-512 are.
abbrev pub IsMac : Hmac → Type 0
IsMac hmac =
    (algorithm : TotpAlgorithm) (secret message : Bytes)
    → All IsByte (hmac algorithm secret message) × (20 ≤ length (hmac algorithm secret message))

-- A byte string as it is indexed.
index_lem :
    (bytes : Bytes) (i : ℕ)
    → i < length bytes
    → All IsByte bytes
    → (b : ℕ) × (byte_at bytes i ≡ some b) × (index bytes i ≡ ok b) × IsByte b
index_lem [] i h are = absurd (omega arith)
index_lem (b ∷ bytes) zero h (is, are) = (b, refl, refl, is)
index_lem (b ∷ bytes) (suc i) h (is, are) = index_lem bytes i (omega arith) are

-- The four bytes at the offset that the low half of the last byte tells: their last 31 bits.
pub record IsTruncated (bytes : Bytes) (binary : ℕ) : Type 0 where
  pub last : ℕ
  pub b0 : ℕ
  pub b1 : ℕ
  pub b2 : ℕ
  pub b3 : ℕ
  pub at_last : byte_at bytes (length bytes - 1) ≡ some last
  pub at0 : byte_at bytes (last % 16) ≡ some b0
  pub at1 : byte_at bytes (last % 16 + 1) ≡ some b1
  pub at2 : byte_at bytes (last % 16 + 2) ≡ some b2
  pub at3 : byte_at bytes (last % 16 + 3) ≡ some b3
  pub value : binary ≡ from_be32 b0 b1 b2 b3 % 2 ^ 31

or_fields :
    (b0 b1 b2 b3 : ℕ)
    → IsByte b0
    → IsByte b1
    → IsByte b2
    → IsByte b3
    → bit_or (bit_or (bit_or (bit_and b0 0x7f * 2 ^ 24) (b1 * 2 ^ 16)) (b2 * 2 ^ 8)) b3
      ≡ from_be32 b0 b1 b2 b3 % 2 ^ 31
or_fields b0 b1 b2 b3 h0 h1 h2 h3 =
    let low : bit_and b0 0x7f ≡ b0 % 128 = low_bits b0 h0 in
    let top = bit_and b0 0x7f in
    let two : bit_or (top * 2 ^ 24) (b1 * 2 ^ 16) ≡ (top * 256 + b1) * 2 ^ 16 =
      bit_or-fields 24 top (b1 * 2 ^ 16) (omega arith) ∙ omega arith in
    let three : bit_or ((top * 256 + b1) * 2 ^ 16) (b2 * 2 ^ 8)
        ≡ ((top * 256 + b1) * 256 + b2) * 2 ^ 8 =
      bit_or-fields 16 (top * 256 + b1) (b2 * 2 ^ 8) (omega arith) ∙ omega arith in
    ap (λ t. bit_or (bit_or t (b2 * 2 ^ 8)) b3) two
    ∙ ap (λ t. bit_or t b3) three
    ∙ bit_or-fields 8 ((top * 256 + b1) * 256 + b2) b3 (omega arith)
    ∙ omega arith

truncate_of :
    (bytes : Bytes) (last b0 b1 b2 b3 : ℕ)
    → bit_and last 0x0f ≡ last % 16
    → index bytes (length bytes - 1) ≡ ok last
    → index bytes (last % 16) ≡ ok b0
    → index bytes (last % 16 + 1) ≡ ok b1
    → index bytes (last % 16 + 2) ≡ ok b2
    → index bytes (last % 16 + 3) ≡ ok b3
    → truncate bytes
      ≡ ok (bit_or (bit_or (bit_or (bit_and b0 0x7f * 2 ^ 24) (b1 * 2 ^ 16)) (b2 * 2 ^ 8)) b3)
unfolding truncate
truncate_of bytes last b0 b1 b2 b3 nibble at_last at0 at1 at2 at3 =
    rw (at_last, nibble, at0, at1, at2, at3) refl

pub truncate_lem :
    (bytes : Bytes)
    → 20 ≤ length bytes
    → All IsByte bytes
    → (binary : ℕ) × (truncate bytes ≡ ok binary) × IsTruncated bytes binary
truncate_lem bytes long are =
    let (last, on_last, at_last, is_last) = index_lem bytes (length bytes - 1) (omega arith) are in
    let nibble : bit_and last 0x0f ≡ last % 16 = low_nibble last is_last in
    let (b0, on0, at0, is0) = index_lem bytes (last % 16) (omega arith) are in
    let (b1, on1, at1, is1) = index_lem bytes (last % 16 + 1) (omega arith) are in
    let (b2, on2, at2, is2) = index_lem bytes (last % 16 + 2) (omega arith) are in
    let (b3, on3, at3, is3) = index_lem bytes (last % 16 + 3) (omega arith) are in
    (
      from_be32 b0 b1 b2 b3 % 2 ^ 31,
      truncate_of bytes last b0 b1 b2 b3 nibble at_last at0 at1 at2 at3
          ∙ ap (λ n. ok n) (or_fields b0 b1 b2 b3 is0 is1 is2 is3),
      record {
        last = last;
        b0 = b0;
        b1 = b1;
        b2 = b2;
        b3 = b3;
        at_last = on_last;
        at0 = on0;
        at1 = on1;
        at2 = on2;
        at3 = on3;
        value = refl;
      },
    )

zero_padded-length : (width n : ℕ) → length (zero_padded width n) ≡ width
unfolding zero_padded
zero_padded-length zero n = refl
zero_padded-length (suc width) n = omega (
  arith,
  length-append (zero_padded width (n / 10)) ((b'0' + n % 10) ∷ []),
  zero_padded-length width (n / 10),
)

All-snoc : (bs : Bytes) (b : ℕ) → All IsDigit bs → IsDigit b → All IsDigit (bs ++ b ∷ [])
All-snoc [] b h d = (d, tt)
All-snoc (x ∷ bs) b (dx, h) d = (dx, All-snoc bs b h d)

zero_padded-IsDigit : (width n : ℕ) → All IsDigit (zero_padded width n)
unfolding zero_padded
zero_padded-IsDigit zero n = tt
zero_padded-IsDigit (suc width) n =
    All-snoc (zero_padded width (n / 10)) (b'0' + n % 10) (zero_padded-IsDigit width (n / 10))
      (omega arith, omega arith)

-- The number that a string of digits denotes.
abbrev pub decimal : ℕ → Bytes → ℕ
decimal n [] = n
decimal n (b ∷ bs) = decimal (n * 10 + (b - b'0')) bs

decimal-snoc :
    (n : ℕ) (bs : Bytes) (b : ℕ) → decimal n (bs ++ b ∷ []) ≡ decimal n bs * 10 + (b - b'0')
decimal-snoc n [] b = refl
decimal-snoc n (x ∷ bs) b = decimal-snoc (n * 10 + (x - b'0')) bs b

decimal-zero_padded : (width n : ℕ) → n < 10 ^ width → decimal 0 (zero_padded width n) ≡ n
unfolding zero_padded
decimal-zero_padded zero n h = omega arith
decimal-zero_padded (suc width) n h =
    let power : 10 ^ suc width ≡ 10 * 10 ^ width = omega (arith, pow-suc 10 width) in
    omega (
      arith,
      decimal-snoc 0 (zero_padded width (n / 10)) (b'0' + n % 10),
      decimal-zero_padded width (n / 10) (omega arith),
    )

-- With six to eight digits and MACs of at least twenty bytes, there is a code for every counter, as
-- no byte outside the MAC is read. It has exactly the number of digits and only digits, and denotes
-- the number of RFC 4226: the last 31 bits of the four bytes at the offset that the low half of the
-- last byte of the MAC tells, modulo ten to the number of digits.
pub hotp-IsTruncated :
    (hmac : Hmac) (secret : Bytes) (counter digits : ℕ) (algorithm : TotpAlgorithm)
    → IsMac hmac
    → min_digits ≤ digits
    → digits ≤ max_digits
    → (code : Bytes) × (binary : ℕ) × (hotp hmac secret counter digits algorithm ≡ ok code)
      × (length code ≡ digits)
      × All IsDigit code
      × (decimal 0 code ≡ binary % 10 ^ digits)
      × IsTruncated (hmac algorithm secret (be64 counter)) binary
unfolding hotp
hotp-IsTruncated hmac secret counter digits algorithm mac least most =
    let (are, long) = mac algorithm secret (be64 counter) in
    let (binary, found, truncated) = truncate_lem (hmac algorithm secret (be64 counter)) long are in
    let enough : leb min_digits digits ≡ true = ground arith in
    let not_too_many : leb digits max_digits ≡ true = ground arith in
    let n = binary % 10 ^ digits in
    let positive : 0 < 10 ^ digits = one-le-pow digits 10 (omega arith) in
    (
      zero_padded digits n,
      binary,
      rw (enough, not_too_many, found) refl,
      zero_padded-length digits n,
      zero_padded-IsDigit digits n,
      decimal-zero_padded digits n (mod-lt binary positive),
      truncated,
    )
