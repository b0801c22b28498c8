-- ===== src/Ssh/Wire/Blobs.antt =====
-- The key and signature blobs, and a frame, read back.
use blackbag.Common.{
  ◌^◌, ◌<◌, ◌≤◌, ◌≡◌, refl, ap, sym, ◌∙◌, [], ◌++◌, arith, append_nil, length, true,
}
use blackbag.Common.Bytes.{Bytes, be32}
use blackbag.Common.Result.{Result, ok, ensure, ◌>>=◌, ◌>>◌}
use blackbag.Ssh.Wire.{
  max_string, WireError, new, is_empty, remaining, u32, string, Writer, ssh_ed25519,
  ed25519_public_blob, ed25519_signature_blob, into_frame, expected_byte,
}
use blackbag.Ssh.Wire.Reading.{rest, advance, u32_lem, string_lem, remaining_lem}

-- A peer's reading of a blob: a key type and one string, with nothing after them.
abbrev pub read_blob : Bytes → Result WireError (Bytes × Bytes)
read_blob blob = string (new blob) >>= λ a.
    string a.1 >>= λ b. ensure (is_empty b.1) expected_byte >> ok (a.0, b.0)

read_blob_lem :
    (payload : Bytes)
    → length payload ≤ max_string
    → read_blob ((be32 11 ++ ssh_ed25519) ++ (be32 (length payload) ++ payload))
      ≡ ok (ssh_ed25519, payload)
read_blob_lem payload short =
    let blob = (be32 11 ++ ssh_ed25519) ++ (be32 (length payload) ++ payload) in
    let (r1, first, rest1) =
      string_lem (new blob) ssh_ed25519 (be32 (length payload) ++ payload) (omega arith) refl in
    let (r2, second, rest2) =
      string_lem r1 payload [] short
        (rest1 ∙ sym (append_nil (be32 (length payload) ++ payload))) in
    let empty : remaining r2 ≡ 0 = remaining_lem r2 ∙ ap length rest2 in
    let done : is_empty r2 ≡ true = ground arith in rw (first, second, done) refl

-- The blob of a public key reads back as the key type "ssh-ed25519" and the key, and the blob of a
-- signature as the key type and the signature, with nothing left over; neither is over the cap.
pub read_blob-ed25519 :
    (public_key signature : Bytes)
    → length public_key ≡ 32
    → length signature ≡ 64
    → (read_blob (ed25519_public_blob public_key) ≡ ok (ssh_ed25519, public_key))
      × (read_blob (ed25519_signature_blob signature) ≡ ok (ssh_ed25519, signature))
unfolding ed25519_public_blob ed25519_signature_blob
read_blob-ed25519 public_key signature hk hs =
    (read_blob_lem public_key (omega arith), read_blob_lem signature (omega arith))

-- A frame of fewer than 2 ^ 32 bytes reads back as its length and then its contents.
pub u32-into_frame :
    (w : Writer)
    → length w.written < 2 ^ 32
    → (u32 (new (into_frame w)) ≡ ok (length w.written, advance (new (into_frame w)) 4))
      × (rest (advance (new (into_frame w)) 4) ≡ w.written)
unfolding into_frame
u32-into_frame w short =
    (u32_lem (new (into_frame w)) (length w.written) w.written short refl, refl)
