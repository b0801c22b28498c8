-- ===== src/Session/Reveal.antt =====
-- `Request::Reveal` and `Request::TotpCode`: a secret, or a code, goes out of the agent.
use blackbag.Common.{ℕ, ◌/◌, Bool, true, false, Option, none, some, String, if◌then◌else◌}
use blackbag.Common.Bytes.{Bytes}
use blackbag.Common.Result.{Result, ok, err}
use blackbag.Audit as Audit
use blackbag.Audit.{socket}
use blackbag.Consent.Ceremony.{seconds}
use blackbag.Policy.{
  Capability, ClientKey, Verdict, as_str, capability_eq, consider, remembered, must_ask, blocked,
}
use blackbag.Policy as Policy
use blackbag.Record.{Record, Uuid, TotpConfig, kind_eq, passkey, field}
use blackbag.Totp.{Hmac, TotpError, totp_at}
use blackbag.Vault.{get}
use blackbag.Session.Messages.{Reports, Response, approval_required, secret, totp}
use blackbag.Session.Life.{opened, proves, client_of, granted, ok_or_fail, audited, program_of}
use blackbag.Session.State.{
  World, Handler, AgentError, invalid_id, record_not_found, no_such_field, not_utf8,
  passkey_never_revealed, lockdown_is_on, not_the_passphrase, no_totp_configuration, no_totp_secret,
  totp_error,
}
use blackbag.Session.Step.{pure, fail, lift, gets, ◌>>=◌, ◌>>◌}
use Prim.Native.String.{◌++◌ as ◌<>◌}

-- `unwrap_or(Capability::Reveal)`
abbrev pub or_reveal : Option Capability → Capability
or_reveal none = Policy.reveal
or_reveal (some c) = c

abbrev pub is_passkey : Option Record → Bool
is_passkey none = false
is_passkey (some r) = kind_eq r.kind passkey

abbrev pub title_of : Option Record → Option String
title_of none = none
title_of (some r) = r.title

abbrev pub totp_response :
    (R : Reports) → ℕ → Result TotpError (Bytes × ℕ) → Result AgentError (Response R)
totp_response R step (ok (code, ttl)) = ok (totp code ttl step)
totp_response R step (err e) = err (totp_error e)

module _ {K : Type 0} (R : Reports) (w : World K) where
  -- What follows from a proof, right or wrong: whether to go on.
  unfoldable pub conclude : ClientKey → Uuid → Capability → String → Bool → Handler K Bool
  conclude client uuid capability subject true = do
    granted client uuid capability
    audited w socket Audit.approved uuid (some subject)
    pure true
  conclude client uuid capability subject false = do
    audited w socket Audit.refused uuid (some subject)
    fail not_the_passphrase

  -- What a passphrase that comes with a request, if one does, settles when a person must be asked.
  unfoldable pub ask_proof : ClientKey → Uuid → Capability → String → Option String → Handler K Bool
  ask_proof client uuid capability subject none = pure false
  ask_proof client uuid capability subject (some pass) = do
    proven ← proves w pass
    conclude client uuid capability subject proven

  unfoldable pub reveal_allowed :
      Verdict → ClientKey → Uuid → Capability → String → Option String → Handler K Bool
  reveal_allowed remembered client uuid capability subject passphrase = do
    audited w socket Audit.remembered uuid (some subject)
    pure true
  reveal_allowed blocked client uuid capability subject passphrase = do
    audited w socket Audit.blocked uuid (some subject)
    fail lockdown_is_on
  reveal_allowed must_ask client uuid capability subject passphrase =
      ask_proof client uuid capability subject passphrase

  -- The reply when nobody has said yes yet.
  unfoldable pub ask : Uuid → String → Handler K (Response R)
  ask uuid name = do
    o ← opened w
    program ← gets (λ a. program_of w a.peer)
    pure (approval_required uuid (title_of (get o.vault uuid)) name program)

  unfoldable pub hand_out : Uuid → String → Handler K (Response R)
  hand_out uuid name = do
    o ← opened w
    r ← ok_or_fail (get o.vault uuid) record_not_found
    value ← ok_or_fail (field r name) no_such_field
    text ← ok_or_fail (w.from_utf8 value) not_utf8
    pure (secret text)

  unfoldable pub reveal :
      String → String → Option Capability → Option String → Handler K (Response R)
  reveal id name capability passphrase = do
    uuid ← ok_or_fail (w.parse_uuid id) invalid_id
    o ← opened w
    if is_passkey (get o.vault uuid) then fail passkey_never_revealed else (do
      client ← gets (λ a. client_of w a.peer)
      verdict ← gets (λ a. consider a.approvals client uuid (or_reveal capability))
      allowed ←
          reveal_allowed verdict client uuid (or_reveal capability)
            (name <> " (" <> as_str (or_reveal capability) <> ")") passphrase
      if allowed then hand_out uuid name else ask uuid name)

  module _ (hmac : Hmac) where
    -- The configuration is looked for first, then the key.
    abbrev pub code_now : Option TotpConfig → Option Bytes → Result AgentError (Response R)
    code_now none key = err no_totp_configuration
    code_now (some config) none = err no_totp_secret
    code_now (some config) (some key) =
        totp_response R config.step
          (totp_at hmac key (w.forms.utc / seconds 1) config.step config.digits config.algorithm)

    unfoldable pub totp_now : Record → Result AgentError (Response R)
    totp_now r = code_now r.totp (field r "totp")

    unfoldable pub code_allowed :
        Verdict → ClientKey → Uuid → Capability → String → Option String → Handler K Bool
    code_allowed remembered client uuid capability subject passphrase = pure true
    code_allowed blocked client uuid capability subject passphrase = do
      audited w socket Audit.blocked uuid (some subject)
      fail lockdown_is_on
    code_allowed must_ask client uuid capability subject passphrase =
        ask_proof client uuid capability subject passphrase

    unfoldable pub hand_out_code : Uuid → Handler K (Response R)
    hand_out_code uuid = do
      o ← opened w
      r ← ok_or_fail (get o.vault uuid) record_not_found
      lift (totp_now r)

    unfoldable pub totp_code : String → Option Capability → Option String → Handler K (Response R)
    totp_code id capability passphrase = do
      uuid ← ok_or_fail (w.parse_uuid id) invalid_id
      client ← gets (λ a. client_of w a.peer)
      verdict ← gets (λ a. consider a.approvals client uuid (or_reveal capability))
      allowed ←
          code_allowed verdict client uuid (or_reveal capability)
            ("totp (" <> as_str (or_reveal capability) <> ")") passphrase
      if allowed then hand_out_code uuid else ask uuid "totp"
