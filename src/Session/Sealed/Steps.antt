-- ===== src/Session/Sealed/Steps.antt =====
-- The requests that a closed agent can carry out too.
use blackbag.Common.{
  ℕ, ◌≡◌, refl, Bool, true, false, Option, none, some, List, if◌then◌else◌, [], ◌∷◌, String,
}
use blackbag.Common.Bytes.{Bytes}
use blackbag.Common.Sets.{set_remove}
use blackbag.Audit as Audit
use blackbag.Audit.{Surface, Decision}
use blackbag.Policy as Policy
use blackbag.Policy.{Approvals, Capability, ClientKey, Verdict, remembered, must_ask, blocked}
use blackbag.Record.{Uuid}
use blackbag.Ssh.Key.{Ed25519}
use blackbag.Totp.{Hmac}
use blackbag.Session.Access as Access
use blackbag.Session.Sealed.{IsSealed, IsSealed-lock, IsOpen, IsOpen→IsSealed, opened-IsOpen}
use blackbag.Session.Life.{
  touch, slide, proves, audited, record_audit, clear_ssh_pending, clear_secret_pending,
}
use blackbag.Session.Items as Items
use blackbag.Session.Keeps.{
  Triple, Keeps, Triple-bind, Triple-map, Triple-from, Triple-if, Triple-pure, Triple-fail,
  Triple-step, Triple-gets,
}
use blackbag.Session.Keeps.Parts.{same_steps}
use blackbag.Session.Messages.{Reports}
use blackbag.Session.Reveal as Reveal
use blackbag.Session.SshKeys as SshKeys
use blackbag.Session.State.{Agent, World, AgentError, OpenVault}
use blackbag.Session.Step.{modify}
use blackbag.Session.Sealed.Requests.{Stays, sealed_rules, base_rules, Leaves-IsSealed}

module _ {K : Type 0} where
  modify-IsSealed :
      (f : Agent K → Agent K)
      → ((a : Agent K) → IsSealed a → IsSealed (f a))
      → Keeps IsSealed IsSealed (modify {E = AgentError} f)
  unfolding modify
  modify-IsSealed f h = record { at = h }

  pub audited-IsSealed :
      (w : World K) (surface : Surface) (decision : Decision) (subject : String)
      (detail : Option String)
      → Keeps IsSealed IsSealed (audited w surface decision subject detail)
  unfolding record_audit
  audited-IsSealed w surface decision subject detail =
      modify-IsSealed _ λ a h. record { cleared = h.cleared }

  clear_ssh-IsSealed :
      (shown : String)
      → Keeps IsSealed IsSealed (modify {E = AgentError} (clear_ssh_pending {K = K} shown))
  unfolding clear_ssh_pending
  clear_ssh-IsSealed shown =
      modify-IsSealed _ λ a h. record {
        cleared = λ e. let (g, t, c, s, p) = h.cleared e in (g, t, c, rw s refl, p);
      }

  clear_secret-IsSealed :
      (item : String)
      → Keeps IsSealed IsSealed (modify {E = AgentError} (clear_secret_pending {K = K} item))
  unfolding clear_secret_pending
  clear_secret-IsSealed item =
      modify-IsSealed _ λ a h. record {
        cleared = λ e. let (g, t, c, s, p) = h.cleared e in (g, t, c, s, rw p refl);
      }

  slide-none : (deadline : ℕ) (o : Option (OpenVault K)) → slide deadline o ≡ none → o ≡ none
  slide-none deadline none e = refl
  slide-none deadline (some o) e = cc

-- No approvals at all.
abbrev IsEmpty : Approvals → Type 0
IsEmpty a = (a.granted ≡ []) × (a.trusted ≡ [])

module _ {K : Type 0} (R : Reports) (w : World K) where
  revoke_each-IsEmpty :
      (client item : String) (cs : List Capability) (a : Approvals)
      → IsEmpty a
      → IsEmpty (Access.revoke_each w R client item cs a).0
  unfolding Access.revoke_each Policy.revoke set_remove
  revoke_each-IsEmpty client item [] a h = h
  revoke_each-IsEmpty client item (c ∷ cs) a (g, t) =
      revoke_each-IsEmpty client item cs (Policy.revoke a client item c).0 (rw g refl, t)

  withdraw-IsEmpty :
      (client : String) (item : Option String) (a : Approvals)
      → IsEmpty a
      → IsEmpty (Access.withdraw w R client item a).0
  unfolding Access.withdraw Policy.revoke_client set_remove
  withdraw-IsEmpty client none a (g, t) = (rw g refl, rw t refl)
  withdraw-IsEmpty client (some item) a h = revoke_each-IsEmpty client item _ a h

  -- What the withdrawal leaves belongs to the agent that it was asked of.
  Withdrawn : Approvals × ℕ → Agent K → Type 0
  Withdrawn x a = IsSealed a × (a.opened_vault ≡ none → IsEmpty x.0)

  set_approvals-IsSealed :
      (x : Approvals × ℕ)
      → Triple IsSealed (Withdrawn x) (Access.set_approvals w R x) (λ n. IsSealed)
  unfolding Access.set_approvals Withdrawn
  set_approvals-IsSealed x = record {
    at = λ a (h, e). record {
      cleared = λ n. let (g, t, c, s, p) = h.cleared n in let (g', t') = e n in (g', t', c, s, p);
    };
  }

  ruleset step_rules = (sealed_rules, audited-IsSealed, clear_ssh-IsSealed, clear_secret-IsSealed)

  pub revoke-IsSealed :
      (client : String) (item : Option String) → Stays R w (Access.revoke w R client item)
  unfolding Access.revoke Withdrawn
  revoke-IsSealed client item =
      Triple-bind _ _
        (Triple-gets {Q = Withdrawn} _ λ a h. (
          h,
          λ e.
              withdraw-IsEmpty (Policy.key_of (some client)) item a.approvals
                ((h.cleared e).0, (h.cleared e).1),
        ))
        λ x. Triple-bind _ _ (set_approvals-IsSealed x) λ n. search step_rules depth 12

  pub lockdown-IsSealed : (on : Bool) → Stays R w (Access.lockdown w R on)
  unfolding Access.lockdown Policy.set_lockdown
  lockdown-IsSealed on =
      Triple-step _ _
        (modify-IsSealed _ λ a h. record {
          cleared = λ e.
              let (g, t, c, s, p) = h.cleared e in
              (
                g,
                elim on as (λ b. (if b then [] else a.approvals.trusted) ≡ []) [
                  | true ↦ refl
                  | false ↦ t
                ],
                c,
                s,
                p,
              );
        })
        λ u. search step_rules depth 12

  pub ssh_dismiss-IsSealed :
      {S : Type 0} (ed : Ed25519 S) (fp : Bytes → String) (shown : String)
      → Stays R w (SshKeys.ssh_dismiss ed fp R w shown)
  unfolding SshKeys.ssh_dismiss
  ssh_dismiss-IsSealed ed fp shown = search step_rules depth 12

  pub secret_dismiss-IsSealed : (id : String) → Stays R w (Items.secret_dismiss R w id)
  unfolding Items.secret_dismiss
  secret_dismiss-IsSealed id = search step_rules depth 12

  pub lock_now-IsSealed : Stays R w (Access.lock_now w R)
  unfolding Access.lock_now
  lock_now-IsSealed =
      Triple-step _ _ (modify-IsSealed _ λ a h. IsSealed-lock _ a) λ u. search step_rules depth 12

  pub shutdown_now-IsSealed : Stays R w (Access.shutdown_now w R)
  unfolding Access.shutdown_now
  shutdown_now-IsSealed =
      Triple-step _ _ (modify-IsSealed _ λ a h. IsSealed-lock _ _) λ u. search step_rules depth 12

  pub touch_now-IsSealed : Stays R w (Access.touch_now w R)
  unfolding Access.touch_now touch Access.status
  touch_now-IsSealed =
      Triple-step _ _
        (modify-IsSealed _
          λ a h. record { cleared = λ e. h.cleared (slide-none _ a.opened_vault e) })
        λ u. search step_rules depth 12

  pub unlock-IsSealed : (pass : String) → Stays R w (Access.unlock w R pass)
  unfolding Access.unlock Access.start Access.status
  unlock-IsSealed pass = Triple-step _ _ (search sealed_rules) λ v.
      Triple-step _ _ (search sealed_rules) λ secs. Triple-step _ _ (search sealed_rules) λ wall.
        Triple-step _ _ (modify-IsSealed _ λ a h. record { cleared = λ e. cc })
          λ u. search step_rules depth 12

  -- A proof that was found right came through the gate.
  Proven : Bool → Agent K → Type 0
  Proven b a = IsSealed a × (b ≡ true → IsOpen a)

  proves-Proven : (pass : String) → Triple IsSealed IsSealed (proves w pass) Proven
  unfolding proves Proven
  proves-Proven pass =
      Triple-if _ _ _ (Triple-pure false λ a h. (h, λ e. cc))
        (Triple-bind _ _ (opened-IsOpen w) λ o. Triple-pure _ λ a h. (IsOpen→IsSealed a h, λ e. h))

  conclude-IsSealed :
      (client : ClientKey) (uuid : Uuid) (c : Capability) (subject : String) (proven : Bool)
      → Triple IsSealed
          (Proven proven)
          (Reveal.conclude R w client uuid c subject proven)
          (λ b. IsSealed)
  unfolding Proven Reveal.conclude
  conclude-IsSealed client uuid c subject true =
      Triple-from _ (λ a h. h.1 refl)
        (Triple-map _ (λ a s. s) (λ b. IsOpen→IsSealed) (search (base_rules) depth 12))
  conclude-IsSealed client uuid c subject false =
      Triple-from _ (λ a h. h.0)
        (Triple-step _ _ (audited-IsSealed w Audit.socket Audit.refused uuid (some subject))
          λ u. Triple-fail _ λ a h. h)

  ask_proof-IsSealed :
      (client : ClientKey) (uuid : Uuid) (c : Capability) (subject : String) (pass : Option String)
      → Keeps IsSealed IsSealed (Reveal.ask_proof R w client uuid c subject pass)
  unfolding Reveal.ask_proof
  ask_proof-IsSealed client uuid c subject none = search step_rules
  ask_proof-IsSealed client uuid c subject (some pass) =
      Triple-bind _ _ (proves-Proven pass) (conclude-IsSealed client uuid c subject)

  code_allowed-IsSealed :
      (hmac : Hmac) (v : Verdict) (client : ClientKey) (uuid : Uuid) (c : Capability)
      (subject : String) (pass : Option String)
      → Keeps IsSealed IsSealed (Reveal.code_allowed R w hmac v client uuid c subject pass)
  unfolding Reveal.code_allowed
  code_allowed-IsSealed hmac remembered client uuid c subject pass = search step_rules
  code_allowed-IsSealed hmac must_ask client uuid c subject pass =
      ask_proof-IsSealed client uuid c subject pass
  code_allowed-IsSealed hmac blocked client uuid c subject pass =
      Triple-step _ _ (audited-IsSealed w Audit.socket Audit.blocked uuid (some subject))
        λ u. Triple-fail _ λ a h. h

  code-IsSealed :
      (hmac : Hmac) (uuid : Uuid) (allowed : Bool)
      → Stays R w
          (if allowed then Reveal.hand_out_code R w hmac uuid else Reveal.ask R w uuid "totp")
  unfolding Reveal.hand_out_code Reveal.ask
  code-IsSealed hmac uuid true = search step_rules depth 12
  code-IsSealed hmac uuid false = search step_rules depth 12

  pub totp_code-IsSealed :
      (hmac : Hmac) (id : String) (c : Option Capability) (pass : Option String)
      → Stays R w (Reveal.totp_code R w hmac id c pass)
  unfolding Reveal.totp_code
  totp_code-IsSealed hmac id c pass =
      search
        (
          Triple-step,
          Triple-gets,
          Leaves-IsSealed R w,
          same_steps,
          code_allowed-IsSealed,
          code-IsSealed,
        )
        depth 9

  pub proves-IsSealed : (pass : String) → Keeps IsSealed IsSealed (proves w pass)
  unfolding Proven
  proves-IsSealed pass = Triple-map _ (λ a s. s) (λ b a h. h.0) (proves-Proven pass)
