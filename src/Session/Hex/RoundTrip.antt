-- ===== src/Session/Hex/RoundTrip.antt =====
-- What `hex` writes is read back.
use blackbag.Common.{
  ℕ, ◌+◌, ◌*◌, ap, ◌<◌, ◌%◌, ◌/◌, ◌==◌, ◌≡◌, refl, true, false, some, [], ◌∷◌, arith, length, All,
}
use blackbag.Common.Bytes.{Bytes, IsByte}
use blackbag.Common.Result.{ok}
use blackbag.Session.Hex.{
  hex, hex_digit, digit_of, from_pair, starts_char, is_boundary, pairs, unhex,
}

-- The digit of a number below sixteen is an ASCII character that is read as that number.
IsDigitOf : ℕ → ℕ → Type 0
IsDigitOf d c = (digit_of c ≡ some d) × (starts_char c ≡ true) × ((c == b'+') ≡ false)

hex_digit-IsDigitOf : (d : ℕ) → d < 16 → IsDigitOf d (hex_digit d)
unfolding IsDigitOf
hex_digit-IsDigitOf d h = ground arith

is_boundary-hex : (bs : Bytes) → All IsByte bs → is_boundary (hex bs) ≡ true
unfolding hex IsDigitOf
is_boundary-hex [] h = refl
is_boundary-hex (b ∷ bs) (h, _) = (hex_digit-IsDigitOf (b / 16) (omega arith)).1

-- The two digits of a byte are one pair, and give the byte.
from_pair-hex : (b : ℕ) → b < 256 → from_pair (hex_digit (b / 16)) (hex_digit (b % 16)) ≡ some b
unfolding IsDigitOf
from_pair-hex b h =
    let (dh, _, ph) = hex_digit-IsDigitOf (b / 16) (omega arith) in
    let (dl, _, _) = hex_digit-IsDigitOf (b % 16) (omega arith) in
    let whole : b / 16 * 16 + b % 16 ≡ b = omega arith in rw (ph, dh, dl) (ap some whole)

length-hex : (bs : Bytes) → length (hex bs) % 2 ≡ 0
unfolding hex
length-hex [] = refl
length-hex (b ∷ bs) = omega (arith, length-hex bs)

pairs-hex : (bs : Bytes) → All IsByte bs → pairs (hex bs) ≡ ok bs
unfolding hex pairs IsDigitOf
pairs-hex [] h = refl
pairs-hex (b ∷ bs) (h, hs) =
    let first = (hex_digit-IsDigitOf (b / 16) (omega arith)).1 in
    rw (first, is_boundary-hex bs hs, from_pair-hex b h, pairs-hex bs hs) refl

-- Bytes that are written in base sixteen read back as themselves: the text has an even number of
-- characters, none of them is cut, and every pair is the byte it was made of.
pub unhex-hex : (bs : Bytes) → All IsByte bs → unhex (hex bs) ≡ ok bs
unfolding unhex
unhex-hex bs h = rw (length-hex bs) (pairs-hex bs h)
