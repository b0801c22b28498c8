-- ===== src/Session/Dispatch.antt =====
-- `dispatch_inner`: one request, from the agent that gets it to the agent that it leaves and the
-- answer; and what the loop of `serve_at` does between requests.
use blackbag.Common.{Option, some, none, List, [], ◌∷◌, ◌++◌, String}
use blackbag.Common.Bytes.{Bytes}
use blackbag.Ssh.Key.{Ed25519}
use blackbag.Totp.{Hmac}
use blackbag.Session.Access as Access
use blackbag.Session.Items as Items
use blackbag.Session.Life.{expire_if_idle, drain_lock_signals}
use blackbag.Session.Messages.{
  Reports, Request, Response, status, unlock, lock, touch, list_records, detail, reveal, add,
  add_many, update, delete, hygiene, totp_code, breach_prefixes, breach_match, passkey_begin,
  passkey_answer, passkey_collect, passkey_queue, approvals, revoke, lockdown, ssh_generate,
  ssh_identities, ssh_sign, ssh_approve, ssh_dismiss, secret_list, secret_get, secret_put,
  secret_delete, secret_approve, secret_dismiss, shutdown,
}
use blackbag.Session.Passkeys as Passkeys
use blackbag.Session.Passkeys.{Authenticator}
use blackbag.Session.Records as Records
use blackbag.Session.Reveal as Reveal
use blackbag.Session.SshKeys as SshKeys
use blackbag.Session.State.{Agent, World, Handler, PeerId, LockReason}
use blackbag.Session.Step.{◌>>◌}

-- The parts that the agent is built on: reports, passkeys, HMAC, signatures, printing.
pub record Parts : Type 1 where
  pub reports : Reports
  pub authenticator : Authenticator
  pub Signing : Type 0
  pub ed25519 : Ed25519 Signing
  pub hmac : Hmac
  pub fingerprint : Bytes → String
  pub handle : Bytes → String → String
  -- a text of ASCII bytes
  pub text : Bytes → String

abbrev arrives : LockReason → Option (List LockReason) → Option (List LockReason)
arrives r none = none
arrives r (some rs) = some (rs ++ r ∷ [])

module _ (p : Parts) where
  -- What happens to the agent: a round of the loop begins, somebody connects, a host event arrives, a
  -- request is carried out.
  pub data Event : Type 0 where
    round : Event
    connects : Option PeerId → Event
    signals : LockReason → Event
    asks : Request p.reports → Event

module _ {K : Type 0} (p : Parts) (w : World K) where
  open p use {reports, authenticator, ed25519, fingerprint}

  unfoldable pub dispatch : Request reports → Handler K (Response reports)
  dispatch status = Access.status w reports
  dispatch (unlock passphrase) = Access.unlock w reports passphrase
  dispatch lock = Access.lock_now w reports
  dispatch touch = Access.touch_now w reports
  dispatch (list_records kind query) = Records.list_records reports w p.handle kind query
  dispatch (detail id) = Records.detail reports w p.handle id
  dispatch (reveal id name capability pass) = Reveal.reveal reports w id name capability pass
  dispatch (add draft) = Records.add reports w draft
  dispatch (add_many drafts) = Records.add_many reports w drafts
  dispatch (update id draft) = Records.update reports w id draft
  dispatch (delete id) = Records.delete reports w id
  dispatch hygiene = Records.hygiene reports w
  dispatch (totp_code id capability pass) = Reveal.totp_code reports w p.hmac id capability pass
  dispatch breach_prefixes = Records.breach_prefixes reports w
  dispatch (breach_match ranges) = Records.breach_match reports w ranges
  dispatch (passkey_begin b) = Passkeys.passkey_begin authenticator reports w p.text b
  dispatch (passkey_answer nonce approve defer credential pass) =
      Passkeys.passkey_answer authenticator reports w nonce approve defer credential pass
  dispatch (passkey_collect nonce) = Passkeys.passkey_collect authenticator reports w nonce
  dispatch passkey_queue = Passkeys.passkey_queue authenticator reports w
  dispatch approvals = Access.approvals w reports
  dispatch (revoke client item) = Access.revoke w reports client item
  dispatch (lockdown on) = Access.lockdown w reports on
  dispatch (ssh_generate comment) = SshKeys.ssh_generate ed25519 fingerprint reports w comment
  dispatch ssh_identities = SshKeys.ssh_identities ed25519 fingerprint reports w
  dispatch (ssh_sign blob message) = SshKeys.ssh_sign ed25519 fingerprint reports w blob message
  dispatch (ssh_approve shown pass) = SshKeys.ssh_approve ed25519 fingerprint reports w shown pass
  dispatch (ssh_dismiss shown) = SshKeys.ssh_dismiss ed25519 fingerprint reports w shown
  dispatch secret_list = Items.secret_list reports w
  dispatch (secret_get id pass) = Items.secret_get reports w id pass
  dispatch (secret_put id label attributes text) =
      Items.secret_put reports w id label attributes text
  dispatch (secret_delete id) = Items.secret_delete reports w id
  dispatch (secret_approve id pass) = Items.secret_approve reports w id pass
  dispatch (secret_dismiss id) = Items.secret_dismiss reports w id
  dispatch shutdown = Access.shutdown_now w reports

  -- What the loop does before it accepts a connection.
  unfoldable pub housekeeping : Handler K (Unit {0})
  housekeeping = expire_if_idle w >> drain_lock_signals w

  unfoldable pub happens : Event p → Agent K → Agent K
  happens round a = (housekeeping a).0
  happens (connects peer) a = record a { peer = peer }
  happens (signals reason) a = record a { lock_signals = arrives reason a.lock_signals }
  happens (asks r) a = (dispatch r a).0

module _ {K : Type 0} (p : Parts) where
  -- The agent after a history, each event with the world as it was.
  unfoldable pub after : List (World K × Event p) → Agent K → Agent K
  after [] a = a
  after ((w, e) ∷ es) a = after es (happens p w e a)
