-- ===== src/Ssh/Wire.antt =====
-- crates/blackbag-core/src/ssh/wire.rs: a reader over untrusted bytes, bounded by what remains, and a
-- writer. The lengths that the writer casts to 32 bits are written by `be32`, which wraps. Whether a
-- string is UTF-8 and base64 are parameters.
pub mod Reading
pub mod Blobs
mod Examples
use blackbag.Common.{
  ℕ, zero, suc, ◌+◌, ◌-◌, ◌*◌, ◌≡◌, Bool, true, false, List, [], ◌∷◌, ◌++◌, ltb, if◌then◌else◌,
  length, take, drop,
}
use blackbag.Common.Bytes.{Bytes, be32, from_be32}
use blackbag.Common.Result.{Result, ok, err, ensure, ◌>>=◌, ◌>>◌}

abbrev pub max_string : ℕ
max_string = 256 * 1024

pub record Reader : Type 0 where
  pub buf : Bytes
  pub pos : ℕ

pub data WireError : Type 0 where
  expected_byte expected_u32 over_cap truncated_string not_utf8 : WireError

abbrev pub new : Bytes → Reader
new buf = record { buf = buf; pos = 0 }

unfoldable pub remaining : Reader → ℕ
remaining r = length r.buf - r.pos

abbrev pub is_empty : Reader → Bool
is_empty r = ltb (remaining r) 1

-- `buf[i]`, where the tests before it keep `i` inside.
abbrev pub byte_at : Bytes → ℕ → ℕ
byte_at [] i = 0
byte_at (b ∷ bs) zero = b
byte_at (b ∷ bs) (suc i) = byte_at bs i

unfoldable pub u8 : Reader → Result WireError (ℕ × Reader)
u8 r =
    if ltb (remaining r) 1
    then err expected_byte
    else ok (byte_at r.buf r.pos, record r { pos = r.pos + 1 })

unfoldable pub u32 : Reader → Result WireError (ℕ × Reader)
u32 r =
    if ltb (remaining r) 4
    then err expected_u32
    else ok (
      from_be32 (byte_at r.buf r.pos) (byte_at r.buf (r.pos + 1)) (byte_at r.buf (r.pos + 2))
          (byte_at r.buf (r.pos + 3)),
      record r { pos = r.pos + 4 },
    )

-- The rest of `string`, after its length.
unfoldable pub string_of : ℕ → Reader → Result WireError (Bytes × Reader)
string_of len r =
    if ltb max_string len
    then err over_cap
    else if ltb (remaining r) len
    then err truncated_string
    else ok (take len (drop r.pos r.buf), record r { pos = r.pos + len })

unfoldable pub string : Reader → Result WireError (Bytes × Reader)
string r = u32 r >>= λ a. string_of a.0 a.1

-- A text is its bytes.
unfoldable pub utf8 : (Bytes → Bool) → Reader → Result WireError (Bytes × Reader)
utf8 is_utf8 r = string r >>= λ a. ensure (is_utf8 a.0) not_utf8 >> ok a

pub record Writer : Type 0 where
  pub written : Bytes

abbrev pub new_writer : Writer
new_writer = record { written = [] }

abbrev pub put_u8 : Writer → ℕ → Writer
put_u8 w b = record { written = w.written ++ b ∷ [] }

abbrev pub put_u32 : Writer → ℕ → Writer
put_u32 w v = record { written = w.written ++ be32 v }

abbrev pub put_string : Writer → Bytes → Writer
put_string w bytes = record { written = (put_u32 w (length bytes)).written ++ bytes }

abbrev pub into_bytes : Writer → Bytes
into_bytes w = w.written

unfoldable pub into_frame : Writer → Bytes
into_frame w = be32 (length w.written) ++ w.written

-- "ssh-ed25519"
abbrev pub ssh_ed25519 : Bytes
ssh_ed25519 = b's' ∷ b's' ∷ b'h' ∷ b'-' ∷ b'e' ∷ b'd' ∷ b'2' ∷ b'5' ∷ b'5' ∷ b'1' ∷ b'9' ∷ []

unfoldable pub ed25519_public_blob : Bytes → Bytes
ed25519_public_blob public_key =
    into_bytes (put_string (put_string new_writer ssh_ed25519) public_key)

unfoldable pub ed25519_signature_blob : Bytes → Bytes
ed25519_signature_blob signature =
    into_bytes (put_string (put_string new_writer ssh_ed25519) signature)

unfoldable pub authorized_key_line : (Bytes → Bytes) → Bytes → Bytes → Bytes
authorized_key_line base64 public_key [] =
    ssh_ed25519 ++ b' ' ∷ base64 (ed25519_public_blob public_key)
authorized_key_line base64 public_key (c ∷ comment) =
    ssh_ed25519 ++ b' ' ∷ base64 (ed25519_public_blob public_key) ++ b' ' ∷ c ∷ comment
