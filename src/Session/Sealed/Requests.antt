-- ===== src/Session/Sealed/Requests.antt =====
-- Every request keeps a closed agent clear.
use blackbag.Common.{Bool, true, false, Option, none, some, List, [], ◌∷◌, String}
use blackbag.Common.Bytes.{Bytes}
use blackbag.Common.Result.{Result}
use blackbag.Policy.{Capability, ClientKey, Verdict, remembered, must_ask, blocked}
use blackbag.Record.{Uuid, Record}
use blackbag.Ssh.Key.{Ed25519, SshKey}
use blackbag.Session.Access as Access
use blackbag.Session.Sealed.{
  IsSealed, IsOpen, IsOpen→IsSealed, opened-IsOpen, reopened-IsOpen, Leaves-IsOpen, put_open-IsOpen,
  put_vault-IsOpen, proves-IsOpen,
}
use blackbag.Session.Life.{opened}
use blackbag.Session.Items as Items
use blackbag.Session.Keeps.{
  Triple, Keeps, Leaves, Triple-when, Triple-bind, Triple-map, Triple-from, Triple-Leaves,
  Triple-if, Triple-pure, Triple-fail, Triple-fails, Triple-step, Triple-gets,
}
use blackbag.Session.Keeps.Parts.{held, held_steps, same_steps, Leaves-modify}
use blackbag.Session.Messages.{Reports, Response, RecordDraft, PasskeyBegin}
use blackbag.Session.Passkeys as Passkeys
use blackbag.Session.Passkeys.{Authenticator}
use blackbag.Session.Records as Records
use blackbag.Session.Reveal as Reveal
use blackbag.Session.SshKeys as SshKeys
use blackbag.Session.State.{World, Handler, AgentError, OpenVault, ExposureMap}
use blackbag.Session.Step.{◌>>=◌}

module _ {K : Type 0} (R : Reports) (w : World K) where
  abbrev pub Stays : Handler K (Response R) → Type 0
  Stays = Keeps IsSealed IsSealed

  -- Behind the gate the agent is open, and stays so.
  pub gate :
      {B : Type 0} (f : OpenVault K → Handler K B)
      → ((o : OpenVault K) → Keeps IsSealed IsOpen (f o))
      → Keeps IsSealed IsSealed (opened w >>= f)
  gate f h =
      Triple-bind (opened w) f (opened-IsOpen w)
        λ o. Triple-map (f o) (λ a s. s) (λ x. IsOpen→IsSealed) (h o)

  pub Leaves-IsSealed :
      {A : Type 0} (m : Handler K A) → Leaves (λ a. a) m → Keeps IsSealed IsSealed m
  Leaves-IsSealed m l = Triple-Leaves (λ a. a) IsSealed m (λ a s. s) l

  pub save-IsOpen : (o : OpenVault K) → Keeps IsSealed IsOpen (Records.save w o)
  unfolding Records.save Records.written
  save-IsOpen o = search (Triple-step, Leaves-IsOpen, put_vault-IsOpen, held_steps)

  pub push_record-IsOpen :
      (o : OpenVault K) (r : Record) → Keeps IsSealed IsOpen (Records.push_record o r)
  unfolding Records.push_record
  push_record-IsOpen o r = search (Triple-step, Leaves-IsOpen, put_vault-IsOpen, held_steps)

  pub ruleset base_rules = (
    Triple-if, Triple-fail, Triple-pure, Triple-gets, Triple-step, IsOpen→IsSealed, reopened-IsOpen,
    Leaves-IsOpen, proves-IsOpen, put_open-IsOpen, put_vault-IsOpen, save-IsOpen,
    push_record-IsOpen, Triple-when, held_steps,
  )

  pub push_all-IsOpen :
      (o : OpenVault K) (rs : List Record) → Keeps IsSealed IsOpen (Records.push_all o rs)
  unfolding Records.push_all
  push_all-IsOpen o [] = search base_rules
  push_all-IsOpen o (r ∷ rs) =
      Triple-step _ _ (push_record-IsOpen o r)
        λ o'. Triple-step _ _ (push_all-IsOpen o' rs) λ p. Triple-pure _ λ a h. h

  pub apply_in_place-IsOpen :
      (o : OpenVault K) (r : Record × Result AgentError (List String))
      → Keeps IsSealed IsOpen (Records.apply_in_place R w o r)
  unfolding Records.apply_in_place
  apply_in_place-IsOpen o r = search base_rules

  pub with_map-IsOpen :
      (o : OpenVault K) (r : R.Breach × ExposureMap)
      → Keeps IsSealed IsOpen (Records.with_map R w o r)
  unfolding Records.with_map
  with_map-IsOpen o r = search base_rules

  pub put_item-IsOpen :
      (o : OpenVault K) (id label : String) (attributes : List (String × String)) (text : String)
      → Keeps IsSealed IsOpen (Items.put_item R w o id label attributes text)
  unfolding Items.put_item
  put_item-IsOpen o id label attributes text = search base_rules

  need_item-IsOpen :
      (uuid : Uuid) → Triple IsSealed IsSealed (Items.need_item R w uuid) (λ o. IsOpen)
  unfolding Items.need_item
  need_item-IsOpen uuid =
      Triple-bind (opened w) _ (opened-IsOpen w)
        λ o. Triple-if _ _ _ (Triple-pure o λ a h. h) (Triple-fail _ IsOpen→IsSealed)

  pub gate_item :
      {B : Type 0} (uuid : Uuid) (f : OpenVault K → Handler K B)
      → ((o : OpenVault K) → Keeps IsSealed IsOpen (f o))
      → Keeps IsSealed IsSealed (Items.need_item R w uuid >>= f)
  gate_item uuid f h =
      Triple-bind _ f (need_item-IsOpen uuid)
        λ o. Triple-map (f o) (λ a s. s) (λ x. IsOpen→IsSealed) (h o)

  module _ (client : ClientKey) (uuid : Uuid) (c : Capability) (subject : String) where
    pub conclude-IsOpen :
        (proven : Bool) → Keeps IsSealed IsOpen (Reveal.conclude R w client uuid c subject proven)
    unfolding Reveal.conclude
    conclude-IsOpen true = search base_rules
    conclude-IsOpen false = search base_rules

    pub ask_proof-IsOpen :
        (pass : Option String)
        → Keeps IsSealed IsOpen (Reveal.ask_proof R w client uuid c subject pass)
    unfolding Reveal.ask_proof
    ask_proof-IsOpen none = search base_rules
    ask_proof-IsOpen (some pass) = search (base_rules, conclude-IsOpen)

    pub reveal_allowed-IsOpen :
        (v : Verdict) (pass : Option String)
        → Keeps IsSealed IsOpen (Reveal.reveal_allowed R w v client uuid c subject pass)
    unfolding Reveal.reveal_allowed
    reveal_allowed-IsOpen remembered pass = search base_rules
    reveal_allowed-IsOpen must_ask pass = ask_proof-IsOpen pass
    reveal_allowed-IsOpen blocked pass = search base_rules

  pub hand_out-IsOpen :
      (uuid : Uuid) (name : String) → Keeps IsSealed IsOpen (Reveal.hand_out R w uuid name)
  unfolding Reveal.hand_out
  hand_out-IsOpen uuid name = search base_rules depth 12

  pub ask-IsOpen : (uuid : Uuid) (name : String) → Keeps IsSealed IsOpen (Reveal.ask R w uuid name)
  unfolding Reveal.ask
  ask-IsOpen uuid name = search base_rules depth 12

  prove_item-IsOpen :
      (id : String) (uuid : Uuid) (pass : Option String)
      → Keeps IsSealed IsOpen (Items.prove_item R w id uuid pass)
  unfolding Items.prove_item Items.ask_item Items.hand_out_item
  prove_item-IsOpen id uuid none = search base_rules depth 12
  prove_item-IsOpen id uuid (some pass) = search base_rules depth 12

  pub settle_item-IsOpen :
      (v : Verdict) (id : String) (uuid : Uuid) (pass : Option String)
      → Keeps IsSealed IsOpen (Items.settle_item R w v id uuid pass)
  unfolding Items.settle_item Items.hand_out_item
  settle_item-IsOpen remembered id uuid pass = search base_rules depth 12
  settle_item-IsOpen must_ask id uuid pass = prove_item-IsOpen id uuid pass
  settle_item-IsOpen blocked id uuid pass = search base_rules

  pub settle_sign-IsOpen :
      {S : Type 0} (ed : Ed25519 S) (fp : Bytes → String) (v : Verdict) (want : Bytes)
      (key : SshKey ed) (comment : String) (message : Bytes)
      → Keeps IsSealed IsOpen (SshKeys.settle_sign ed fp R w v want key comment message)
  unfolding SshKeys.settle_sign
  settle_sign-IsOpen ed fp remembered want key comment message = search base_rules
  settle_sign-IsOpen ed fp must_ask want key comment message = search base_rules depth 12
  settle_sign-IsOpen ed fp blocked want key comment message = search base_rules

  pub ruleset open_rules = (
    base_rules, push_all-IsOpen, apply_in_place-IsOpen, with_map-IsOpen, put_item-IsOpen,
    reveal_allowed-IsOpen, hand_out-IsOpen, ask-IsOpen, settle_item-IsOpen, settle_sign-IsOpen,
  )

  pub ruleset sealed_rules = (
    Triple-if, Triple-fail, Triple-pure, Triple-gets, Triple-step, gate, gate_item, Leaves-IsSealed,
    same_steps, open_rules,
  )

  pub reveal-IsSealed :
      (id name : String) (c : Option Capability) (pass : Option String)
      → Stays (Reveal.reveal R w id name c pass)
  unfolding Reveal.reveal
  reveal-IsSealed id name c pass = search sealed_rules depth 16

  pub list_records-IsSealed :
      (handle : Bytes → String → String) (kind query : Option String)
      → Stays (Records.list_records R w handle kind query)
  unfolding Records.list_records
  list_records-IsSealed handle kind query = search sealed_rules depth 16

  pub detail-IsSealed :
      (handle : Bytes → String → String) (id : String) → Stays (Records.detail R w handle id)
  unfolding Records.detail
  detail-IsSealed handle id = search sealed_rules depth 16

  pub add-IsSealed : (draft : RecordDraft) → Stays (Records.add R w draft)
  unfolding Records.add
  add-IsSealed draft = search sealed_rules depth 16

  pub add_many-IsSealed : (drafts : List RecordDraft) → Stays (Records.add_many R w drafts)
  unfolding Records.add_many
  add_many-IsSealed drafts = search sealed_rules depth 16

  pub update-IsSealed : (id : String) (draft : RecordDraft) → Stays (Records.update R w id draft)
  unfolding Records.update
  update-IsSealed id draft = search sealed_rules depth 16

  pub delete-IsSealed : (id : String) → Stays (Records.delete R w id)
  unfolding Records.delete
  delete-IsSealed id = search sealed_rules depth 16

  pub hygiene-IsSealed : Stays (Records.hygiene R w)
  unfolding Records.hygiene
  hygiene-IsSealed = search sealed_rules depth 16

  pub breach_prefixes-IsSealed : Stays (Records.breach_prefixes R w)
  unfolding Records.breach_prefixes
  breach_prefixes-IsSealed = search sealed_rules depth 16

  pub breach_match-IsSealed : (ranges : List R.Range) → Stays (Records.breach_match R w ranges)
  unfolding Records.breach_match
  breach_match-IsSealed ranges = search sealed_rules depth 16

  pub passkey_begin-IsSealed :
      (P : Authenticator) (text : Bytes → String) (b : PasskeyBegin)
      → Stays (Passkeys.passkey_begin P R w text b)
  unfolding Passkeys.passkey_begin
  passkey_begin-IsSealed P text b = search sealed_rules depth 16

  pub passkey_queue-IsSealed : (P : Authenticator) → Stays (Passkeys.passkey_queue P R w)
  unfolding Passkeys.passkey_queue
  passkey_queue-IsSealed P = search sealed_rules depth 16

  pub status-IsSealed : Stays (Access.status w R)
  unfolding Access.status
  status-IsSealed = search sealed_rules depth 16

  pub approvals-IsSealed : Stays (Access.approvals w R)
  unfolding Access.approvals
  approvals-IsSealed = search sealed_rules depth 16

  pub ssh_generate-IsSealed :
      {S : Type 0} (ed : Ed25519 S) (fp : Bytes → String) (said : String)
      → Stays (SshKeys.ssh_generate ed fp R w said)
  unfolding SshKeys.ssh_generate
  ssh_generate-IsSealed ed fp said = search sealed_rules depth 16

  pub ssh_identities-IsSealed :
      {S : Type 0} (ed : Ed25519 S) (fp : Bytes → String) → Stays (SshKeys.ssh_identities ed fp R w)
  unfolding SshKeys.ssh_identities
  ssh_identities-IsSealed ed fp = search sealed_rules depth 16

  pub ssh_sign-IsSealed :
      {S : Type 0} (ed : Ed25519 S) (fp : Bytes → String) (blob message : Bytes)
      → Stays (SshKeys.ssh_sign ed fp R w blob message)
  unfolding SshKeys.ssh_sign
  ssh_sign-IsSealed ed fp blob message = search sealed_rules depth 16

  pub ssh_approve-IsSealed :
      {S : Type 0} (ed : Ed25519 S) (fp : Bytes → String) (shown pass : String)
      → Stays (SshKeys.ssh_approve ed fp R w shown pass)
  unfolding SshKeys.ssh_approve
  ssh_approve-IsSealed ed fp shown pass = search sealed_rules depth 16

  pub secret_list-IsSealed : Stays (Items.secret_list R w)
  unfolding Items.secret_list
  secret_list-IsSealed = search sealed_rules depth 16

  pub secret_get-IsSealed :
      (id : String) (pass : Option String) → Stays (Items.secret_get R w id pass)
  unfolding Items.secret_get
  secret_get-IsSealed id pass = search sealed_rules depth 16

  pub secret_put-IsSealed :
      (id label : String) (attributes : List (String × String)) (text : String)
      → Stays (Items.secret_put R w id label attributes text)
  unfolding Items.secret_put
  secret_put-IsSealed id label attributes text = search sealed_rules depth 16

  pub secret_delete-IsSealed : (id : String) → Stays (Items.secret_delete R w id)
  unfolding Items.secret_delete
  secret_delete-IsSealed id = search sealed_rules depth 16

  pub secret_approve-IsSealed : (id pass : String) → Stays (Items.secret_approve R w id pass)
  unfolding Items.secret_approve
  secret_approve-IsSealed id pass = search sealed_rules depth 16
