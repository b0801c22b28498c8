-- ===== src/Session/Expiry/Requests.antt =====
-- Request by request: nothing of the vault comes out of an agent whose time is over.
use blackbag.Common.{◌≡◌, Bool, true, false, Option, none, some, List, if◌then◌else◌, String}
use blackbag.Common.Bytes.{Bytes}
use blackbag.Consent.Ceremony.{
  Operation, create, assert, Ceremony, State, awaiting_human, approved, refused, deferred,
}
use blackbag.Policy.{Capability, ClientKey, Verdict, remembered, must_ask, blocked}
use blackbag.Record.{Uuid}
use blackbag.Ssh.Key.{Ed25519}
use blackbag.Totp.{Hmac}
use blackbag.Session.Access as Access
use blackbag.Session.Expiry.{IsOver, lock-IsOver, opened-IsOver, Leaves-IsOver, proves-IsOver}
use blackbag.Session.Life.{lock}
use blackbag.Session.Items as Items
use blackbag.Session.Keeps.{
  Triple, Keeps, Triple-if, Triple-pure, Triple-fail, Triple-fails, Triple-step, Triple-gets,
}
use blackbag.Session.Keeps.Parts.{held, held_rules, Leaves-modify}
use blackbag.Session.Messages.{Reports, Request, Response, RecordDraft, PasskeyBegin}
use blackbag.Session.Messages as Messages
use blackbag.Session.Passkeys as Passkeys
use blackbag.Session.Passkeys.{Authenticator}
use blackbag.Session.Records as Records
use blackbag.Session.Reveal as Reveal
use blackbag.Session.SshKeys as SshKeys
use blackbag.Session.State.{Agent, World, Handler}
use blackbag.Session.Step.{pure, gets}

-- Whether an answer says more than that something was done, to how many, is waited for, or is left to
-- a security key.
abbrev pub tells : {R : Reports} → Response R → Bool
tells Messages.done = false
tells (Messages.added _) = false
tells Messages.passkey_waiting = false
tells Messages.passkey_use_security_key = false
tells _ = true

module _ {K : Type 0} (R : Reports) (w : World K) where
  -- What a request may leave behind when the time is over.
  unfoldable pub Denied : Response R → Agent K → Type 0
  Denied x a = IsOver w a × (tells x ≡ false)

  abbrev Denies : Handler K (Response R) → Type 0
  Denies m = Triple (IsOver w) (IsOver w) m Denied

  denied : (x : Response R) → tells x ≡ false → Denies (pure x)
  unfolding Denied
  denied x e = Triple-pure x λ a h. (h, e)

  denied_gets : (f : Agent K → Response R) → ((a : Agent K) → tells (f a) ≡ false) → Denies (gets f)
  unfolding Denied
  denied_gets f e = Triple-gets f λ a h. (h, e a)

  ruleset denied_rules = (
    Triple-if, Triple-fail, Triple-fails, Triple-step, denied, denied_gets, opened-IsOver,
    Leaves-IsOver, proves-IsOver, held_rules,
  )

  pub reveal-Denied :
      (id name : String) (c : Option Capability) (pass : Option String)
      → Denies (Reveal.reveal R w id name c pass)
  unfolding Reveal.reveal
  reveal-Denied id name c pass = search denied_rules

  conclude-IsOver :
      (client : ClientKey) (uuid : Uuid) (c : Capability) (subject : String) (proven : Bool)
      → Keeps (IsOver w) (IsOver w) (Reveal.conclude R w client uuid c subject proven)
  unfolding Reveal.conclude
  conclude-IsOver client uuid c subject true = search denied_rules
  conclude-IsOver client uuid c subject false = search denied_rules

  ask_proof-IsOver :
      (client : ClientKey) (uuid : Uuid) (c : Capability) (subject : String) (pass : Option String)
      → Keeps (IsOver w) (IsOver w) (Reveal.ask_proof R w client uuid c subject pass)
  unfolding Reveal.ask_proof
  ask_proof-IsOver client uuid c subject none = search denied_rules
  ask_proof-IsOver client uuid c subject (some pass) = search (denied_rules, conclude-IsOver)

  code_allowed-IsOver :
      (hmac : Hmac) (v : Verdict) (client : ClientKey) (uuid : Uuid) (c : Capability)
      (subject : String) (pass : Option String)
      → Keeps (IsOver w) (IsOver w) (Reveal.code_allowed R w hmac v client uuid c subject pass)
  unfolding Reveal.code_allowed
  code_allowed-IsOver hmac remembered client uuid c subject pass = search denied_rules
  code_allowed-IsOver hmac must_ask client uuid c subject pass =
      ask_proof-IsOver client uuid c subject pass
  code_allowed-IsOver hmac blocked client uuid c subject pass = search denied_rules

  code-Denied :
      (hmac : Hmac) (uuid : Uuid) (allowed : Bool)
      → Denies (if allowed then Reveal.hand_out_code R w hmac uuid else Reveal.ask R w uuid "totp")
  unfolding Reveal.hand_out_code Reveal.ask
  code-Denied hmac uuid allowed = search denied_rules

  pub totp_code-Denied :
      (hmac : Hmac) (id : String) (c : Option Capability) (pass : Option String)
      → Denies (Reveal.totp_code R w hmac id c pass)
  unfolding Reveal.totp_code
  totp_code-Denied hmac id c pass = search (denied_rules, code_allowed-IsOver, code-Denied)

  pub list_records-Denied :
      (handle : Bytes → String → String) (kind query : Option String)
      → Denies (Records.list_records R w handle kind query)
  unfolding Records.list_records
  list_records-Denied handle kind query = search denied_rules

  pub detail-Denied :
      (handle : Bytes → String → String) (id : String) → Denies (Records.detail R w handle id)
  unfolding Records.detail
  detail-Denied handle id = search denied_rules

  pub add-Denied : (draft : RecordDraft) → Denies (Records.add R w draft)
  unfolding Records.add
  add-Denied draft = search denied_rules

  pub add_many-Denied : (drafts : List RecordDraft) → Denies (Records.add_many R w drafts)
  unfolding Records.add_many
  add_many-Denied drafts = search denied_rules

  pub update-Denied : (id : String) (draft : RecordDraft) → Denies (Records.update R w id draft)
  unfolding Records.update
  update-Denied id draft = search denied_rules

  pub delete-Denied : (id : String) → Denies (Records.delete R w id)
  unfolding Records.delete
  delete-Denied id = search denied_rules

  pub hygiene-Denied : Denies (Records.hygiene R w)
  unfolding Records.hygiene
  hygiene-Denied = search denied_rules

  pub breach_prefixes-Denied : Denies (Records.breach_prefixes R w)
  unfolding Records.breach_prefixes
  breach_prefixes-Denied = search denied_rules

  pub breach_match-Denied : (ranges : List R.Range) → Denies (Records.breach_match R w ranges)
  unfolding Records.breach_match
  breach_match-Denied ranges = search denied_rules

  pub passkey_begin-Denied :
      (P : Authenticator) (text : Bytes → String) (b : PasskeyBegin)
      → Denies (Passkeys.passkey_begin P R w text b)
  unfolding Passkeys.passkey_begin
  passkey_begin-Denied P text b = search denied_rules

  pub passkey_answer-Denied :
      (P : Authenticator) (nonce : String) (approve defer : Bool) (id : Option Bytes)
      (pass : String)
      → Denies (Passkeys.passkey_answer P R w nonce approve defer id pass)
  unfolding Passkeys.passkey_answer
  passkey_answer-Denied P nonce approve defer id pass = search denied_rules depth 9

  pub revoke-Denied :
      (client : String) (item : Option String) → Denies (Access.revoke w R client item)
  unfolding Access.revoke
  revoke-Denied client item = search denied_rules depth 9

  pub lockdown-Denied : (on : Bool) → Denies (Access.lockdown w R on)
  unfolding held Access.lockdown
  lockdown-Denied on = search (denied_rules, Leaves-modify)

  pub ssh_generate-Denied :
      {S : Type 0} (ed : Ed25519 S) (fp : Bytes → String) (said : String)
      → Denies (SshKeys.ssh_generate ed fp R w said)
  unfolding SshKeys.ssh_generate
  ssh_generate-Denied ed fp said = search denied_rules depth 9

  pub ssh_identities-Denied :
      {S : Type 0} (ed : Ed25519 S) (fp : Bytes → String)
      → Denies (SshKeys.ssh_identities ed fp R w)
  unfolding SshKeys.ssh_identities
  ssh_identities-Denied ed fp = search denied_rules

  pub ssh_sign-Denied :
      {S : Type 0} (ed : Ed25519 S) (fp : Bytes → String) (blob message : Bytes)
      → Denies (SshKeys.ssh_sign ed fp R w blob message)
  unfolding SshKeys.ssh_sign
  ssh_sign-Denied ed fp blob message = search denied_rules

  pub ssh_approve-Denied :
      {S : Type 0} (ed : Ed25519 S) (fp : Bytes → String) (shown pass : String)
      → Denies (SshKeys.ssh_approve ed fp R w shown pass)
  unfolding SshKeys.ssh_approve
  ssh_approve-Denied ed fp shown pass = search denied_rules

  pub ssh_dismiss-Denied :
      {S : Type 0} (ed : Ed25519 S) (fp : Bytes → String) (shown : String)
      → Denies (SshKeys.ssh_dismiss ed fp R w shown)
  unfolding SshKeys.ssh_dismiss
  ssh_dismiss-Denied ed fp shown = search denied_rules

  pub secret_list-Denied : Denies (Items.secret_list R w)
  unfolding Items.secret_list
  secret_list-Denied = search denied_rules

  pub secret_get-Denied :
      (id : String) (pass : Option String) → Denies (Items.secret_get R w id pass)
  unfolding Items.secret_get Items.need_item
  secret_get-Denied id pass = search denied_rules

  pub secret_put-Denied :
      (id label : String) (attributes : List (String × String)) (text : String)
      → Denies (Items.secret_put R w id label attributes text)
  unfolding Items.secret_put
  secret_put-Denied id label attributes text = search denied_rules

  pub secret_delete-Denied : (id : String) → Denies (Items.secret_delete R w id)
  unfolding Items.secret_delete Items.need_item
  secret_delete-Denied id = search denied_rules

  pub secret_approve-Denied : (id pass : String) → Denies (Items.secret_approve R w id pass)
  unfolding Items.secret_approve Items.need_item
  secret_approve-Denied id pass = search denied_rules

  pub secret_dismiss-Denied : (id : String) → Denies (Items.secret_dismiss R w id)
  unfolding Items.secret_dismiss
  secret_dismiss-Denied id = search denied_rules

  pub shutdown_now-Denied : Denies (Access.shutdown_now w R)
  unfolding lock held Access.shutdown_now
  shutdown_now-Denied = search (denied_rules, lock-IsOver)

  pub lock_now-Denied : Denies (Access.lock_now w R)
  unfolding lock held Access.lock_now
  lock_now-Denied = search (denied_rules, lock-IsOver)

  module _ (P : Authenticator) where
    perform-Denied :
        (op : Operation) (c : Ceremony) (id : Bytes) → Denies (Passkeys.perform P R w op c id)
    unfolding Passkeys.perform Passkeys.make Passkeys.sign_in
    perform-Denied create c id = search denied_rules
    perform-Denied assert c id = search denied_rules

    settle-Denied : (c : Ceremony) (s : State) → Denies (Passkeys.settle P R w c s)
    unfolding Passkeys.settle
    settle-Denied c awaiting_human = search denied_rules
    settle-Denied c (approved id) = perform-Denied c.operation c id
    settle-Denied c (refused reason) = search denied_rules
    settle-Denied c deferred = search denied_rules

    collected-Denied :
        (nonce : String) (c : Option Ceremony) → Denies (Passkeys.collected P R w nonce c)
    unfolding Passkeys.collected
    collected-Denied nonce none = search denied_rules depth 9
    collected-Denied nonce (some c) = search (denied_rules, settle-Denied)

    pub passkey_collect-Denied : (nonce : String) → Denies (Passkeys.passkey_collect P R w nonce)
    unfolding Passkeys.passkey_collect
    passkey_collect-Denied nonce = search (denied_rules, collected-Denied)
