-- ===== src/Ssh/Wire/Examples.antt =====
-- Blobs of a key of thirty-two bytes, and a frame.
use blackbag.Common.{◌≡◌, refl, [], ◌∷◌, replicate, arith}
use blackbag.Common.Result.{ok, err}
use blackbag.Ssh.Wire.{
  new, expected_u32, over_cap, u32, string, string_of, remaining, new_writer, put_u8, ssh_ed25519,
  ed25519_public_blob, ed25519_signature_blob, into_frame,
}
use blackbag.Ssh.Wire.Reading.{rest, advance}
use blackbag.Ssh.Wire.Blobs.{read_blob, read_blob-ed25519, u32-into_frame}

-- A length that is absurd is refused for the cap.
string-over_cap : string (new (0xff ∷ 0xff ∷ 0xff ∷ 0xff ∷ [])) ≡ err over_cap
unfolding string u32 string_of remaining
string-over_cap = refl

u32-short : u32 (new (1 ∷ [])) ≡ err expected_u32
unfolding u32 remaining
u32-short = refl

read_blob-ed25519_example :
    (read_blob (ed25519_public_blob (replicate 32 0x11)) ≡ ok (ssh_ed25519, replicate 32 0x11))
    × (read_blob (ed25519_signature_blob (replicate 64 7)) ≡ ok (ssh_ed25519, replicate 64 7))
read_blob-ed25519_example = read_blob-ed25519 (replicate 32 0x11) (replicate 64 7) refl refl

u32-into_frame_example :
    (u32 (new (into_frame (put_u8 new_writer 6)))
      ≡ ok (1, advance (new (into_frame (put_u8 new_writer 6))) 4))
    × (rest (advance (new (into_frame (put_u8 new_writer 6))) 4) ≡ 6 ∷ [])
u32-into_frame_example = u32-into_frame (put_u8 new_writer 6) (omega arith)
