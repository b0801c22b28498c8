-- ===== src/Session/State.antt =====
-- The state of the agent, and what locks it. Times are counts of nanoseconds; a request reads each
-- clock once.
use blackbag.Common.{
  ℕ, ◌*◌, ◌-◌, ◌/◌, ◌^◌, max, min, Bool, false, Option, none, List, [], String, ◌==◌, if◌then◌else◌,
}
use blackbag.Common.Result.{Result}
use blackbag.Audit.{Surface, Decision}
use blackbag.Consent.Ceremony.{seconds}
use blackbag.Consent.Desk as Desk
use blackbag.Consent.Desk.{Desk, DeskError}
use blackbag.Policy as Policy
use blackbag.Policy.{Approvals}
use blackbag.Common.Bytes.{Bytes}
use blackbag.Record.{Uuid, VaultError, TotpConfig}
use blackbag.Ssh.Key.{KeyError}
use blackbag.Totp.{TotpError}
use blackbag.Vault.{Vault, Disk, UnlockMethod}
use blackbag.Session.Hex.{HexError}
use blackbag.Session.Step.{Step}

pub data LockReason : Type 0 where
  manual idle session_ceiling suspend session_lock rekeyed shutdown : LockReason

pub record SshPendingView : Type 0 where
  pub fingerprint : String
  pub comment : String

pub record SecretPendingView : Type 0 where
  pub item : Uuid
  pub label : String

-- `ExposureMap`: a record, a field, and how often its value was seen.
abbrev pub ExposureMap : Type 0
ExposureMap = List ((Uuid × String) × ℕ)

pub record OpenVault (K : Type 0) : Type 0 where
  pub vault : Vault K
  pub exposure : ExposureMap
  pub deadline : ℕ
  pub ceiling : ℕ
  pub ceiling_wall : ℕ
  pub method : UnlockMethod

unfoldable pub effective_deadline : {K : Type 0} → OpenVault K → ℕ
effective_deadline o = min o.deadline o.ceiling

-- A process, with its start time: the two identify it.
pub record PeerId : Type 0 where
  pub pid : ℕ
  pub started : ℕ

-- A line of history as the agent hands it to the log.
pub record Line : Type 0 where
  pub uid : ℕ
  pub pid : ℕ
  pub program : Option String
  pub surface : Surface
  pub decision : Decision
  pub subject : String
  pub detail : Option String

pub record Agent (K : Type 0) : Type 0 where
  pub idle_timeout : ℕ
  pub max_session : ℕ
  pub opened_vault : Option (OpenVault K)
  pub shutdown_requested : Bool
  pub last_lock_reason : Option LockReason
  -- the events that wait in the channel, when somebody watches
  pub lock_signals : Option (List LockReason)
  pub consent : Desk
  pub peer : Option PeerId
  pub approvals : Approvals
  -- the lines written, when there is a log
  pub history : Option (List Line)
  pub ssh_pending : List SshPendingView
  pub secret_pending : List SecretPendingView

abbrev pub default_max_session_secs : ℕ
default_max_session_secs = 12 * 3600

unfoldable pub new : {K : Type 0} → ℕ → Agent K
new idle_secs = record {
  idle_timeout = seconds (max idle_secs 30);
  max_session = seconds default_max_session_secs;
  opened_vault = none;
  shutdown_requested = false;
  last_lock_reason = none;
  lock_signals = none;
  consent = Desk.new;
  peer = none;
  approvals = Policy.new;
  history = none;
  ssh_pending = [];
  secret_pending = [];
}

-- `u64::MAX / 4`
abbrev pub no_ceiling_secs : ℕ
no_ceiling_secs = 2 ^ 64 / 4 - 1

unfoldable pub with_max_session_secs : {K : Type 0} → Agent K → ℕ → Agent K
with_max_session_secs a secs = record a {
  max_session = if secs == 0 then seconds no_ceiling_secs else seconds (max secs 60);
}

pub data AgentError : Type 0 where
  vault_error : VaultError → AgentError
  desk_error : DeskError → AgentError
  totp_error : TotpError → AgentError
  key_error : KeyError → AgentError
  hex_error : HexError → AgentError
  -- why a ceremony was refused
  ceremony_refused : String → AgentError
  status_not_published vault_locked vault_rekeyed clock_overflow : AgentError
  invalid_id record_not_found no_such_field not_utf8 passkey_never_revealed : AgentError
  lockdown_is_on not_the_passphrase no_totp_configuration no_totp_secret : AgentError
  bad_hash_length hash_with_origin public_suffix rp_not_valid no_challenge : AgentError
  no_randomness no_passkey_waiting not_answered no_user_handle passkey_gone : AgentError
  no_such_key no_such_item no_stored_value unknown_kind nameless_field no_totp_seed : AgentError
  refused_elsewhere : String → AgentError

-- The text forms of a TOTP secret (`parse_otpauth`, `decode_base32`), the bytes of a text, the wall clock.
pub record Forms : Type 0 where
  pub parse_otpauth : String → Result AgentError (Bytes × TotpConfig)
  pub decode_base32 : String → Result AgentError Bytes
  pub utf8 : String → Bytes
  pub utc : ℕ

-- What is outside the process, as one request finds it.
pub record World (K : Type 0) : Type 0 where
  pub now : ℕ
  pub forms : Forms
  -- `Utc::now() + ChronoDuration::seconds(n)`: none where that panics
  pub utc_after : ℕ → Option ℕ
  pub disk : Disk K
  pub publishes : Agent K → Bool
  pub audit_writes : Bool
  pub getuid : ℕ
  -- the name of a process
  pub program : ℕ → Option String
  pub show_pid : ℕ → String
  pub show_peer : PeerId → String
  pub parse_uuid : String → Option Uuid
  -- what `Uuid::new_v4` gives, time after time
  pub new_uuid : ℕ → Uuid
  -- sixteen bytes of the system's randomness, if it has them
  pub random : Option Bytes
  pub from_utf8 : Bytes → Option String

abbrev pub Handler : Type 0 → Type 0 → Type 0
Handler K A = Step AgentError (Agent K) A
