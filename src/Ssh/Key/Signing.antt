-- ===== src/Ssh/Key/Signing.antt =====
-- A client that reads the blobs of a key checks its signatures.
use blackbag.Common.{◌≡◌, refl, ◌==◌, not, Bool, true, false, some, length, arith}
use blackbag.Common.Bytes.{Bytes}
use blackbag.Common.Result.{Result, ok, ◌>>=◌}
use blackbag.Ssh.Wire.{WireError}
use blackbag.Ssh.Wire.Blobs.{read_blob, read_blob-ed25519}
use blackbag.Ssh.Key.{Ed25519, SshKey, generate, from_seed, public_key, public_blob, sign_blob}

-- What RFC 8032 promises: the sizes, and that a signature verifies.
pub record IsEd25519 {K : Type 0} (ed25519 : Ed25519 K) : Type 0 where
  pub key_length : (k : K) → length (ed25519.verifying_key k) ≡ 32
  pub signature_length : (k : K) (m : Bytes) → length (ed25519.sign k m) ≡ 64
  pub verifies :
      (k : K) (m : Bytes) → ed25519.accepts (ed25519.verifying_key k) m (ed25519.sign k m) ≡ true

module _ {K : Type 0} (ed25519 : Ed25519 K) where
  -- A client's check of a signature blob under a public blob.
  abbrev pub check_blobs : Bytes → Bytes → Bytes → Result WireError Bool
  check_blobs public signature message = read_blob public >>= λ key.
      read_blob signature >>= λ sig. ok (ed25519.accepts key.1 message sig.1)

  -- A key that was generated is the key that its seed gives again, if the system's random bytes are
  -- thirty-two, and what it signs verifies for a client that reads the two blobs.
  pub check_blobs-generate :
      (seed message : Bytes) (key : SshKey ed25519)
      → IsEd25519 ed25519
      → length seed ≡ 32
      → generate ed25519 (some seed) ≡ ok (key, seed)
      → (from_seed ed25519 seed ≡ ok key)
        × (check_blobs (public_blob ed25519 key) (sign_blob ed25519 key message) message ≡ ok true)
  unfolding generate from_seed public_blob sign_blob public_key
  check_blobs-generate seed message key is_scheme sized made =
      let right_length : not (length seed == 32) ≡ false = ground arith in
      let same : record { signing = ed25519.from_bytes seed } ≡ key = cc in
      let public = ed25519.verifying_key key.signing in
      let signature = ed25519.sign key.signing message in
      let (read_key, other) =
        read_blob-ed25519 public signature (is_scheme.key_length key.signing)
          (is_scheme.signature_length key.signing message) in
      (
        rw (right_length, same) refl,
        rw (read_key, other, is_scheme.verifies key.signing message) refl,
      )
