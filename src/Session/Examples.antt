-- ===== src/Session/Examples.antt =====
-- Fixtures for the tests of the agent: one vault with one password, which the passphrase "open" opens.
mod Closing
mod Secrets
mod Signatures
use blackbag.Common.{
  ℕ, ◌≡◌, refl, inl, true, false, none, some, List, [], ◌∷◌, arith, str_eq, if◌then◌else◌,
  replicate, String,
}
use blackbag.Common.Bytes.{Bytes, bytes_eq}
use blackbag.Common.Result.{Result, ok, err}
use blackbag.Consent.Desk as Desk
use blackbag.Policy as Policy
use blackbag.Record.{Uuid, Record, login, passkey, ssh, not_found, VaultError}
use blackbag.Record as Record
use blackbag.Ssh.Key.{Ed25519, SshKey, from_seed, public_key, public_blob, sign_blob}
use blackbag.Ssh.Wire as Wire
use blackbag.Common.Sets.{member, set_insert}
use blackbag.Totp.{Hmac, sha1, totp_at, hotp, truncate, zero_padded}
use blackbag.Vault as Vault
use blackbag.Vault.{Vault, Disk, by_passphrase}
use blackbag.Session.Dispatch.{
  Parts, dispatch, Event, round, connects, signals, asks, after, happens,
}
use blackbag.Session.Draft.{private_key_field, apply_to}
use blackbag.Session.Draft.Keys.{apply_to-keeps_keys}
use blackbag.Session.Earned.{Earned}
use blackbag.Session.Earned.Secrets.{reveal-Earned, totp_code-Earned}
use blackbag.Session.Earned.Signatures.{ssh_sign-Earned}
use blackbag.Session.SshKeys as SshKeys
use blackbag.Session.Expiry.{IsOver, IsClosed}
use blackbag.Session.Expiry.Answers.{dispatch-IsOver, TellsNothing, round-IsClosed}
use blackbag.Session.Hex.{hex, unhex, pairs}
use blackbag.Session.Hex.RoundTrip.{unhex-hex}
use blackbag.Session.Access as Access
use blackbag.Session.Keeps.Parts.{held}
use blackbag.Session.Life as Life
use blackbag.Session.Life.{client_of, publish}
use blackbag.Session.Step.{◌>>=◌, modify, gets, pure, fail, lift}
use blackbag.Session.Messages.{
  Reports, Request, Response, RecordDraft, secret, totp, ssh_signature, reveal, unlock, lock,
}
use blackbag.Session.Passkeys.{Authenticator}
use blackbag.Session.Reveal as Reveal
use blackbag.Session.Sealed.{IsClear}
use blackbag.Session.Sealed.Invariant.{after-IsClear}
use blackbag.Session.State.{Agent, AgentError, Forms, World, session_lock, new, refused_elsewhere}

abbrev pub K : Type 0
K = Unit {0}

abbrev pub reports : Reports
reports = record {
  Hygiene = Unit {0};
  Candidate = Unit {0};
  Range = Unit {0};
  Breach = Unit {0};
  analyse = λ rs n m. tt;
  candidates = λ rs. [];
  match_ranges = λ rs ns m. (tt, m);
}

abbrev authenticator : Authenticator
authenticator = record {
  Credential = Unit {0};
  rp_id_is_registrable = λ r. true;
  rp_id_is_valid_for_origin = λ r o. true;
  create_credential = λ c h. err (refused_elsewhere "");
  credential_from_record = λ r. ok tt;
  assert_prehashed = λ c h u b. err (refused_elsewhere "");
  assert_data = λ c o d u b. err (refused_elsewhere "");
  prf_evaluate = λ s t. s;
  backed_up_through = λ u. none;
  quote = λ s. s;
}

abbrev pub ed25519 : Ed25519 Bytes
ed25519 = record {
  from_bytes = λ b. b;
  verifying_key = λ k. k;
  sign = λ k m. m;
  accepts = λ k m s. true;
}

abbrev pub parts : Parts
parts = record {
  reports = reports;
  authenticator = authenticator;
  Signing = Bytes;
  ed25519 = ed25519;
  hmac = λ alg key message. key;
  fingerprint = λ b. "SHA256:key";
  handle = λ b n. "handle";
  text = λ b. "0123456789abcdef0123456789abcdef";
}

abbrev pub mail : Record
mail = record (Record.new "mail" 0 login (some "Mail")) {
  fields =
      record { name = "password"; secret = 104 ∷ 105 ∷ [] }
      ∷ record { name = "totp"; secret = 0 ∷ 0 ∷ 0 ∷ 0 ∷ [] }
      ∷ [];
  totp =
      some (record {
        issuer = none;
        account = none;
        digits = 6;
        step = 30;
        skew = 1;
        algorithm = sha1;
      });
}

abbrev pub vault : Vault K
vault = record {
  records = mail ∷ [];
  epoch = 1;
  vault_id = "vault";
  rollback_suspected = false;
  unlocked_by = by_passphrase;
  key = tt;
}

abbrev disk : Disk K
disk = record {
  unlock = λ pass. if str_eq pass "open" then ok vault else err not_found;
  refresh = λ v. ok v;
  save = λ v. (v, ok tt);
  passphrase_matches = λ v pass. str_eq pass "open";
  open_lock = ok tt;
}

abbrev pub forms : Forms
forms = record {
  parse_otpauth = λ s. err (refused_elsewhere s);
  decode_base32 = λ s. err (refused_elsewhere s);
  utf8 = λ s. [];
  utc = 0;
}

-- The world at an instant.
abbrev pub at_time : ℕ → World K
at_time now = record {
  now = now;
  forms = forms;
  utc_after = λ secs. some secs;
  disk = disk;
  publishes = λ a. true;
  audit_writes = true;
  getuid = 1000;
  program = λ pid. some "brave";
  show_pid = λ pid. "7";
  show_peer = λ p. "peer";
  parse_uuid = λ s. some s;
  new_uuid = λ n. "new";
  random = none;
  from_utf8 = λ b. some "hi";
}

abbrev pub caller : Event parts
caller = connects (some (record { pid = 7; started = 1 }))

-- An agent that was unlocked at time 0, with ten for the idle deadline and twenty for the ceiling.
abbrev pub unlocked : Agent K
unlocked = record {
  idle_timeout = 10;
  max_session = 20;
  opened_vault = some (record {
    vault = vault;
    exposure = [];
    deadline = 10;
    ceiling = 20;
    ceiling_wall = 20;
    method = by_passphrase;
  });
  shutdown_requested = false;
  last_lock_reason = none;
  lock_signals = none;
  consent = record { pending = [] };
  peer = some (record { pid = 7; started = 1 });
  approvals = record { granted = []; lockdown = false; trusted = [] };
  history = none;
  ssh_pending = [];
  secret_pending = [];
}
