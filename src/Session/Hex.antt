-- ===== src/Session/Hex.antt =====
-- `hex` and `unhex` of crates/blackbag-core/src/session.rs. A text is its UTF-8 bytes.
pub mod RoundTrip
use blackbag.Common.{
  ℕ, ◌+◌, ◌-◌, ◌*◌, ◌/◌, ◌%◌, Bool, true, false, not, ◌&&◌, ◌||◌, Option, none, some, List, [], ◌∷◌,
  ltb, leb, ◌==◌, if◌then◌else◌, length,
}
use blackbag.Common.Bytes.{Bytes}
use blackbag.Common.Result.{Result, ok, err, ◌>>=◌}

pub data HexError : Type 0 where
  -- the second is the panic of a slice that cuts a character in two
  bad_hex cut_character : HexError

-- `{b:02x}`
abbrev pub hex_digit : ℕ → ℕ
hex_digit d = if ltb d 10 then b'0' + d else b'a' + (d - 10)

unfoldable pub hex : Bytes → Bytes
hex [] = []
hex (b ∷ bs) = hex_digit (b / 16) ∷ hex_digit (b % 16) ∷ hex bs

-- The value of a digit in base sixteen.
abbrev pub digit_of : ℕ → Option ℕ
digit_of c =
    if leb b'0' c && leb c b'9'
    then some (c - b'0')
    else if leb b'a' c && leb c b'f'
    then some (c - b'a' + 10)
    else if leb b'A' c && leb c b'F'
    then some (c - b'A' + 10)
    else none

-- `u8::from_str_radix(.., 16)` on two bytes; a sign is allowed in front.
abbrev pub from_pair : ℕ → ℕ → Option ℕ
from_pair c d = if c == b'+' then digit_of d else elim (digit_of c) [
  | none ↦ none
  | some h ↦ elim (digit_of d) [ none ↦ none | some l ↦ some (h * 16 + l) ]
]

-- Whether a character starts here.
abbrev pub starts_char : ℕ → Bool
starts_char c = not (leb 128 c && ltb c 192)

-- Whether `text[..2]` may be cut off.
abbrev pub is_boundary : Bytes → Bool
is_boundary [] = true
is_boundary (c ∷ cs) = starts_char c

abbrev cons_pair : Option ℕ → Result HexError Bytes → Result HexError Bytes
cons_pair none rest = err bad_hex
cons_pair (some b) rest = rest >>= λ bs. ok (b ∷ bs)

-- The loop over the pairs of a text of even length.
unfoldable pub pairs : Bytes → Result HexError Bytes
pairs [] = ok []
pairs (c ∷ []) = err bad_hex
pairs (c ∷ d ∷ cs) =
    let rest = pairs cs in
    if starts_char c && is_boundary cs then cons_pair (from_pair c d) rest else err cut_character

unfoldable pub unhex : Bytes → Result HexError Bytes
unhex text = if length text % 2 == 0 then pairs text else err bad_hex
