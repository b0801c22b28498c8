-- ===== src/Session/Examples/Signatures.antt =====
-- Tests of the signatures that the agent of session.rs gives an SSH client.
use blackbag.Common.{◌≡◌, refl, false, none, some, [], ◌∷◌, replicate, String}
use blackbag.Common.Bytes.{Bytes, bytes_eq}
use blackbag.Common.Result.{Result, ok}
use blackbag.Policy as Policy
use blackbag.Record.{Uuid, Record, login, passkey, ssh, not_found, VaultError}
use blackbag.Record as Record
use blackbag.Ssh.Key.{SshKey, from_seed, public_key, public_blob, sign_blob}
use blackbag.Ssh.Wire as Wire
use blackbag.Common.Sets.{member}
use blackbag.Vault.{by_passphrase}
use blackbag.Session.Earned.Signatures.{ssh_sign-Earned}
use blackbag.Session.SshKeys as SshKeys
use blackbag.Session.Hex.{hex, unhex, pairs}
use blackbag.Session.Life as Life
use blackbag.Session.Life.{client_of, publish}
use blackbag.Session.Step.{◌>>=◌, modify, gets, pure, fail, lift}
use blackbag.Session.Messages.{Response, ssh_signature}
use blackbag.Session.State.{Agent, AgentError}
use blackbag.Session.Examples.{K, reports, ed25519, mail, vault, at_time, unlocked}

-- The same agent with a key beside, that the SSH client was let sign with.
abbrev ssh_seed : Bytes
ssh_seed = replicate 32 1

abbrev with_key : Agent K
with_key = record unlocked {
  opened_vault = some (record {
    vault = record vault {
      records =
          record (Record.new "key" 0 ssh none) {
            fields = record { name = "ssh_seed"; secret = ssh_seed } ∷ [];
          }
          ∷ mail
          ∷ [];
    };
    exposure = [];
    deadline = 10;
    ceiling = 20;
    ceiling_wall = 20;
    method = by_passphrase;
  });
  approvals = record {
    granted =
        record { client = "ssh-agent"; item = "SHA256:key"; capability = Policy.ssh_sign } ∷ [];
    lockdown = false;
    trusted = [];
  };
}

abbrev fingerprint : Bytes → String
fingerprint = λ b. "SHA256:key"

-- The blob of the key and the message, as the SSH client names them.
abbrev key_text : Bytes
key_text = hex (Wire.ed25519_public_blob ssh_seed)

abbrev message_text : Bytes
message_text = hex (104 ∷ 105 ∷ [])

abbrev after_sign : Agent K × Result AgentError (Response reports)
after_sign = SshKeys.ssh_sign ed25519 fingerprint reports (at_time 5) key_text message_text with_key

abbrev signed_text : Bytes
signed_text = hex (Wire.ed25519_signature_blob (104 ∷ 105 ∷ []))

ssh_sign_runs : after_sign ≡ (after_sign.0, ok (ssh_signature signed_text))
unfolding SshKeys.ssh_sign SshKeys.need_hex SshKeys.need_found SshKeys.find_key SshKeys.key_in
    SshKeys.settle_sign SshKeys.comment_of hex unhex pairs from_seed public_key public_blob
    sign_blob Wire.ed25519_public_blob Wire.ed25519_signature_blob ◌>>=◌ pure fail lift Life.opened
    Life.expire_if_idle Life.lock_and_publish Life.expiry Life.resume Life.picked_up gets
    Policy.consider member Policy.as_str Policy.key_of Policy.grant_eq Record.field Record.new
    Life.record_audit modify bytes_eq
ssh_sign_runs = refl

ssh_sign-Earned_example :
    (want : Bytes) × (message : Bytes) × (key : SshKey ed25519) × (unhex key_text ≡ ok want)
    × (unhex message_text ≡ ok message)
    × (public_blob ed25519 key ≡ want)
    × (signed_text ≡ hex (sign_blob ed25519 key message))
    × (Policy.consider with_key.approvals SshKeys.client (fingerprint want) Policy.ssh_sign
        ≡ Policy.remembered)
ssh_sign-Earned_example =
    ssh_sign-Earned ed25519 fingerprint reports (at_time 5) with_key key_text message_text
      after_sign.0 signed_text ssh_sign_runs
