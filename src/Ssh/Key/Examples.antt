-- ===== src/Ssh/Key/Examples.antt =====
-- A scheme whose signatures tell the length of the message, in the place of Ed25519.
use blackbag.Common.{ℕ, ◌≡◌, refl, true, some, [], ◌∷◌, length, length-replicate, replicate}
use blackbag.Common.Bytes.{Bytes, bytes_eq, bytes_eq_iff}
use blackbag.Common.Result.{ok, err}
use blackbag.Ssh.Key.{Ed25519, SshKey, generate, from_seed, seed_length, public_blob, sign_blob}
use blackbag.Ssh.Key.Signing.{IsEd25519, check_blobs, check_blobs-generate}

abbrev scheme : Ed25519 ℕ
scheme = record {
  from_bytes = length;
  verifying_key = λ k. replicate 32 k;
  sign = λ k message. replicate 64 (length message);
  accepts = λ public message signature. bytes_eq signature (replicate 64 (length message));
}

scheme-IsEd25519 : IsEd25519 scheme
scheme-IsEd25519 = record {
  key_length = λ k. length-replicate 32 k;
  signature_length = λ k m. length-replicate 64 (length m);
  verifies = λ k m. (bytes_eq_iff (replicate 64 (length m)) (replicate 64 (length m))).1 refl;
}

abbrev seed : Bytes
seed = replicate 32 5

abbrev key : SshKey scheme
key = record { signing = 32 }

from_seed-short : from_seed scheme (1 ∷ []) ≡ err (seed_length 1)
unfolding from_seed
from_seed-short = refl

generate-seed : generate scheme (some seed) ≡ ok (key, seed)
unfolding generate
generate-seed = refl

check_blobs-generate_example :
    (from_seed scheme seed ≡ ok key)
    × (check_blobs scheme
          (public_blob scheme key)
          (sign_blob scheme key (b'h' ∷ b'i' ∷ []))
          (b'h' ∷ b'i' ∷ [])
        ≡ ok true)
check_blobs-generate_example =
    check_blobs-generate scheme seed (b'h' ∷ b'i' ∷ []) key scheme-IsEd25519 refl generate-seed
