-- ===== src/Session/Keeps/Parts.antt =====
-- Which part of the agent the steps of the handlers leave as it is.
use blackbag.Common.{ℕ, ◌≡◌, refl, Bool, Option, none, some, String, List, [], ◌∷◌}
use blackbag.Common.Bytes.{Bytes}
use blackbag.Common.Result.{Result, ok, err}
use blackbag.Audit.{Surface, Decision}
use blackbag.Consent.Desk.{Desk, DeskError}
use blackbag.Policy.{Approvals, Capability, ClientKey, set_lockdown}
use blackbag.Record.{Kind, parse_kind, VaultError}
use blackbag.Ssh.Key.{Ed25519, SshKey, KeyError}
use blackbag.Session.Hex.{HexError, unhex}
use blackbag.Session.Keeps.{Leaves, leaves_rules, Leaves-bind, Leaves-pure, Leaves-lift}
use blackbag.Session.Life.{
  record_audit, audited, granted, publish, clear_ssh_pending, clear_secret_pending,
  note_ssh_pending, note_secret_pending, ok_or_fail,
}
use blackbag.Session.Access.{set_approvals}
use blackbag.Session.Messages.{Reports, PasskeyBegin}
use blackbag.Session.Passkeys.{Authenticator, bind_lane, take, on_desk, hex_each, hex_option}
use blackbag.Session.Records.{from_vault, known_kind, need_kind}
use blackbag.Session.SshKeys.{from_hex, need_hex, need_key, need_found}
use blackbag.Session.State.{Agent, World, AgentError, OpenVault}
use blackbag.Session.Step.{modify}

module _ {K : Type 0} where
  unfoldable pub held : Agent K → Option (OpenVault K)
  held a = a.opened_vault

  unfoldable pub policy : Agent K → Approvals
  policy a = a.approvals

  module _ {X : Type 0} {part : Agent K → X} where
    pub Leaves-publish : (w : World K) → Leaves part (publish w)
    unfolding publish
    Leaves-publish w = search leaves_rules

    pub Leaves-ok_or_fail :
        {A : Type 0} (o : Option A) (e : AgentError) → Leaves part (ok_or_fail {K = K} o e)
    Leaves-ok_or_fail none e = search leaves_rules
    Leaves-ok_or_fail (some x) e = search leaves_rules

    pub Leaves-from_vault :
        {A : Type 0} (r : Result VaultError A) → Leaves part (from_vault {K = K} r)
    unfolding from_vault
    Leaves-from_vault (ok x) = search leaves_rules
    Leaves-from_vault (err e) = search leaves_rules

    pub Leaves-from_hex : (r : Result HexError Bytes) → Leaves part (from_hex {K = K} r)
    Leaves-from_hex (ok b) = search leaves_rules
    Leaves-from_hex (err e) = search leaves_rules

    pub Leaves-need_hex : (t : Bytes) → Leaves part (need_hex {K = K} t)
    unfolding need_hex
    Leaves-need_hex t = Leaves-from_hex (unhex t)

    pub Leaves-hex_option : (t : Option Bytes) → Leaves part (hex_option {K = K} t)
    unfolding hex_option
    Leaves-hex_option none = search leaves_rules
    Leaves-hex_option (some t) = search (leaves_rules, Leaves-need_hex)

    pub Leaves-hex_each : (ts : List Bytes) → Leaves part (hex_each {K = K} ts)
    unfolding hex_each
    Leaves-hex_each [] = search leaves_rules
    Leaves-hex_each (t ∷ ts) =
        Leaves-bind _ _ (Leaves-need_hex t)
          λ b. Leaves-bind _ _ (Leaves-hex_each ts) λ bs. Leaves-pure (b ∷ bs)

  module _ {X : Type 0} {part : Agent K → X} {S : Type 0} (ed : Ed25519 S)
      (fp : Bytes → String) where
    pub Leaves-need_key :
        (r : Result KeyError (SshKey ed × Bytes)) → Leaves part (need_key ed fp {K = K} r)
    unfolding need_key
    Leaves-need_key (ok k) = search leaves_rules
    Leaves-need_key (err e) = search leaves_rules

    pub Leaves-need_found :
        (r : Option (SshKey ed × String)) → Leaves part (need_found ed fp {K = K} r)
    unfolding need_found
    Leaves-need_found none = search leaves_rules
    Leaves-need_found (some k) = search leaves_rules

  module _ {X : Type 0} {part : Agent K → X} (R : Reports) (w : World K) where
    Leaves-known_kind : (k : Option Kind) → Leaves part (known_kind R w k)
    Leaves-known_kind none = search leaves_rules
    Leaves-known_kind (some k) = search leaves_rules

    pub Leaves-need_kind : (name : Option String) → Leaves part (need_kind R w name)
    unfolding need_kind
    Leaves-need_kind none = search leaves_rules
    Leaves-need_kind (some name) = Leaves-known_kind (parse_kind name)

    pub Leaves-bind_lane :
        (P : Authenticator) (b : PasskeyBegin) (hash : Option Bytes)
        → Leaves part (bind_lane P R w b hash)
    unfolding bind_lane
    Leaves-bind_lane P b none = search leaves_rules
    Leaves-bind_lane P b (some hash) = search leaves_rules

  pub Leaves-modify :
      {X : Type 0} {part : Agent K → X} (f : Agent K → Agent K)
      → ((a : Agent K) → part (f a) ≡ part a)
      → Leaves part (modify {E = AgentError} f)
  unfolding modify
  Leaves-modify f h = record { same = h }

  module _ (w : World K) (surface : Surface) (decision : Decision) (subject : String)
      (detail : Option String) where
    pub audited-held : Leaves held (audited w surface decision subject detail)
    unfolding held record_audit
    audited-held = search Leaves-modify

    pub audited-policy : Leaves policy (audited w surface decision subject detail)
    unfolding policy record_audit
    audited-policy = search Leaves-modify

  pub granted_held :
      (client : ClientKey) (item : String) (c : Capability)
      → Leaves held (granted {K = K} client item c)
  unfolding held
  granted_held client item c = Leaves-modify _ λ a. refl

  pub note_ssh_held :
      (shown comment : String) → Leaves held (note_ssh_pending {K = K} shown comment)
  unfolding held note_ssh_pending
  note_ssh_held shown comment = search (leaves_rules, Leaves-modify)

  pub note_ssh_policy :
      (shown comment : String) → Leaves policy (note_ssh_pending {K = K} shown comment)
  unfolding policy note_ssh_pending
  note_ssh_policy shown comment = search (leaves_rules, Leaves-modify)

  pub note_secret_held :
      (item label : String)
      → Leaves held (modify {E = AgentError} (note_secret_pending {K = K} item label))
  unfolding held note_secret_pending
  note_secret_held item label = Leaves-modify _ λ a. refl

  pub note_secret_policy :
      (item label : String)
      → Leaves policy (modify {E = AgentError} (note_secret_pending {K = K} item label))
  unfolding policy note_secret_pending
  note_secret_policy item label = Leaves-modify _ λ a. refl

  pub clear_ssh_held :
      (shown : String) → Leaves held (modify {E = AgentError} (clear_ssh_pending {K = K} shown))
  unfolding held clear_ssh_pending
  clear_ssh_held shown = Leaves-modify _ λ a. refl

  pub clear_ssh_policy :
      (shown : String) → Leaves policy (modify {E = AgentError} (clear_ssh_pending {K = K} shown))
  unfolding policy clear_ssh_pending
  clear_ssh_policy shown = Leaves-modify _ λ a. refl

  pub clear_secret_held :
      (item : String) → Leaves held (modify {E = AgentError} (clear_secret_pending {K = K} item))
  unfolding held clear_secret_pending
  clear_secret_held item = Leaves-modify _ λ a. refl

  pub clear_secret_policy :
      (item : String) → Leaves policy (modify {E = AgentError} (clear_secret_pending {K = K} item))
  unfolding policy clear_secret_pending
  clear_secret_policy item = Leaves-modify _ λ a. refl

  pub on_desk-held :
      {A : Type 0} (f : Desk → Desk × Result DeskError A) → Leaves held (on_desk {K = K} f)
  unfolding held on_desk
  on_desk-held f = record { same = λ a. refl }

  pub on_desk-policy :
      {A : Type 0} (f : Desk → Desk × Result DeskError A) → Leaves policy (on_desk {K = K} f)
  unfolding policy on_desk
  on_desk-policy f = record { same = λ a. refl }

  module _ (R : Reports) (w : World K) where
    pub take-held : (P : Authenticator) (nonce : String) → Leaves held (take P R w nonce)
    unfolding held take
    take-held P nonce = record { same = λ a. refl }

    pub take-policy : (P : Authenticator) (nonce : String) → Leaves policy (take P R w nonce)
    unfolding policy take
    take-policy P nonce = record { same = λ a. refl }

    pub set_approvals-held : (r : Approvals × ℕ) → Leaves held (set_approvals w R r)
    unfolding held set_approvals
    set_approvals-held r = record { same = λ a. refl }

    pub lockdown_held :
        (on : Bool)
        → Leaves held (
            modify {E = AgentError} {S = Agent K}
              (λ a. record a { approvals = set_lockdown a.approvals on }))
    unfolding held
    lockdown_held on = Leaves-modify _ λ a. refl

-- Single steps that leave any part as it is.
pub ruleset same_steps = (
  Leaves-lift, Leaves-publish, Leaves-ok_or_fail, Leaves-from_vault, Leaves-need_hex,
  Leaves-hex_option, Leaves-hex_each, Leaves-need_kind, Leaves-bind_lane, Leaves-need_key,
  Leaves-need_found,
)

-- Single steps that leave the open vault as it is.
pub ruleset held_steps = (
  same_steps, audited-held, granted_held, note_ssh_held, note_secret_held, clear_ssh_held,
  clear_secret_held, on_desk-held, take-held, set_approvals-held, lockdown_held,
)

pub ruleset held_rules = (leaves_rules, held_steps)

-- Single steps that leave the approvals as they are.
pub ruleset policy_steps = (
  same_steps, audited-policy, note_ssh_policy, note_secret_policy, clear_ssh_policy,
  clear_secret_policy, on_desk-policy, take-policy,
)
