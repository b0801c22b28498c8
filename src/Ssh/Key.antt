-- ===== src/Ssh/Key.antt =====
-- crates/blackbag-core/src/ssh/key.rs: Ed25519 keys. The signature scheme and the system's random bytes
-- are parameters.
pub mod Signing
mod Examples
use blackbag.Common.{
  ℕ, ◌==◌, not, Bool, true, false, Option, none, some, List, [], if◌then◌else◌, length,
}
use blackbag.Common.Bytes.{Bytes}
use blackbag.Common.Result.{Result, ok, err, ok_or, ◌>>=◌}
use blackbag.Ssh.Wire as Wire

pub data KeyError : Type 0 where
  no_randomness : KeyError
  seed_length : ℕ → KeyError

-- The Ed25519 library.
pub record Ed25519 (K : Type 0) : Type 0 where
  pub from_bytes : Bytes → K
  pub verifying_key : K → Bytes
  pub sign : K → Bytes → Bytes
  pub accepts : Bytes → Bytes → Bytes → Bool

module _ {K : Type 0} (ed25519 : Ed25519 K) where
  pub record SshKey : Type 0 where
    pub signing : K

  -- `random` is what `getrandom` filled in, if it did.
  unfoldable pub generate : Option Bytes → Result KeyError (SshKey × Bytes)
  generate random =
      ok_or random no_randomness >>= λ seed. ok (record { signing = ed25519.from_bytes seed }, seed)

  unfoldable pub from_seed : Bytes → Result KeyError SshKey
  from_seed seed =
      if not (length seed == 32)
      then err (seed_length (length seed))
      else ok (record { signing = ed25519.from_bytes seed })

  unfoldable pub public_key : SshKey → Bytes
  public_key key = ed25519.verifying_key key.signing

  unfoldable pub public_blob : SshKey → Bytes
  public_blob key = Wire.ed25519_public_blob (public_key key)

  unfoldable pub sign_blob : SshKey → Bytes → Bytes
  sign_blob key message = Wire.ed25519_signature_blob (ed25519.sign key.signing message)
