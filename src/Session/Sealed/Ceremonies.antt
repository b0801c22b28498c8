-- ===== src/Session/Sealed/Ceremonies.antt =====
-- The ceremonies of passkeys, which a closed agent can answer and collect too.
use blackbag.Common.{ℕ, ◌≡◌, refl, Bool, Option, none, some, [], String}
use blackbag.Common.Bytes.{Bytes}
use blackbag.Common.Result.{Result, ok, err}
use blackbag.Consent.Ceremony.{
  Operation, create, assert, Ceremony, State, awaiting_human, approved, refused, deferred,
}
use blackbag.Consent.Desk as Desk
use blackbag.Consent.Desk.{Desk, DeskError}
use blackbag.Session.Sealed.{IsSealed}
use blackbag.Session.Keeps.{
  After, Keeps, Triple-if, Triple-pure, Triple-fail, Triple-step, Triple-gets,
}
use blackbag.Session.Keeps.Parts.{same_steps}
use blackbag.Session.Messages.{Reports}
use blackbag.Session.Passkeys as Passkeys
use blackbag.Session.Passkeys.{Authenticator, on_desk, take, shown_peer}
use blackbag.Session.State.{Agent, World}
use blackbag.Session.Sealed.Requests.{Stays, sealed_rules, Leaves-IsSealed}
use blackbag.Session.Sealed.Steps.{audited-IsSealed, proves-IsSealed}

module _ {K : Type 0} where
  on_desk-After :
      {A : Type 0} (a : Agent K) (r : Desk × Result DeskError A)
      → IsSealed a
      → (a.opened_vault ≡ none → r.0.pending ≡ [])
      → After IsSealed (λ x. IsSealed) (on_desk (λ d. r) a)
  unfolding on_desk
  on_desk-After a (d, ok x) h e = record {
    cleared = λ n. let (g, t, c, s, p) = h.cleared n in (g, t, e n, s, p);
  }
  on_desk-After a (d, err x) h e = record {
    cleared = λ n. let (g, t, c, s, p) = h.cleared n in (g, t, e n, s, p);
  }

  on_desk-IsSealed :
      {A : Type 0} (f : Desk → Desk × Result DeskError A)
      → ((d : Desk) → d.pending ≡ [] → (f d).0.pending ≡ [])
      → Keeps IsSealed IsSealed (on_desk {K = K} f)
  unfolding on_desk
  on_desk-IsSealed f e = record {
    at = λ a h. on_desk-After a (f a.consent) h λ n. e a.consent (h.cleared n).2;
  }

defer-empty :
    (nonce : String) (now : ℕ) (d : Desk) → d.pending ≡ [] → (Desk.defer d nonce now).0.pending ≡ []
unfolding Desk.defer Desk.set_state Desk.on_first Desk.expire
defer-empty nonce now d e = rw e refl

refuse-empty :
    (nonce reason : String) (now : ℕ) (d : Desk)
    → d.pending ≡ []
    → (Desk.refuse d nonce reason now).0.pending ≡ []
unfolding Desk.refuse Desk.set_state Desk.on_first Desk.expire
refuse-empty nonce reason now d e = rw e refl

approve-empty :
    (nonce : String) (id : Option Bytes) (proof : Bool) (now : ℕ) (d : Desk)
    → d.pending ≡ []
    → (Desk.approve d nonce id proof now).0.pending ≡ []
unfolding Desk.approve Desk.on_first Desk.expire
approve-empty nonce id proof now d e = rw e refl

take-empty :
    (nonce : String) (collector : Option String) (now : ℕ) (d : Desk)
    → d.pending ≡ []
    → (Desk.take_answered d nonce collector now).0.pending ≡ []
unfolding Desk.take_answered Desk.take_first Desk.expire
take-empty nonce collector now d e = rw e refl

module _ {K : Type 0} (R : Reports) (w : World K) where
  ruleset ceremony_rules = (sealed_rules, audited-IsSealed)

  module _ (P : Authenticator) where
    pub passkey_answer-IsSealed :
        (nonce : String) (approve defer : Bool) (id : Option Bytes) (pass : String)
        → Stays R w (Passkeys.passkey_answer P R w nonce approve defer id pass)
    unfolding Passkeys.passkey_answer
    passkey_answer-IsSealed nonce approve defer id pass =
        search
          (
            Triple-if,
            Triple-step,
            Triple-pure,
            proves-IsSealed,
            on_desk-IsSealed,
            defer-empty,
            refuse-empty,
            approve-empty,
            Leaves-IsSealed R w,
            same_steps,
          )
          depth 12

    perform-IsSealed :
        (op : Operation) (c : Ceremony) (id : Bytes) → Stays R w (Passkeys.perform P R w op c id)
    unfolding Passkeys.perform Passkeys.make Passkeys.sign_in
    perform-IsSealed create c id = search ceremony_rules depth 12
    perform-IsSealed assert c id = search ceremony_rules depth 12

    settle-IsSealed : (c : Ceremony) (s : State) → Stays R w (Passkeys.settle P R w c s)
    unfolding Passkeys.settle
    settle-IsSealed c awaiting_human = Triple-fail _ λ a h. h
    settle-IsSealed c (approved id) = perform-IsSealed c.operation c id
    settle-IsSealed c (refused reason) = Triple-fail _ λ a h. h
    settle-IsSealed c deferred = Triple-pure _ λ a h. h

    collected-IsSealed :
        (nonce : String) (c : Option Ceremony) → Stays R w (Passkeys.collected P R w nonce c)
    unfolding Passkeys.collected
    collected-IsSealed nonce none =
        search (Triple-gets, Triple-step, Triple-if, Triple-pure, Triple-fail)
    collected-IsSealed nonce (some c) =
        search (Triple-step, Leaves-IsSealed R w, same_steps, settle-IsSealed)

    take-IsSealed : (nonce : String) → Keeps IsSealed IsSealed (Passkeys.take P R w nonce)
    unfolding Passkeys.take
    take-IsSealed nonce = record {
      at = λ a h. record {
        cleared = λ e.
            let (g, t, c, s, p) = h.cleared e in
            (g, t, take-empty nonce (shown_peer w a.peer) w.forms.utc a.consent c, s, p);
      };
    }

    pub passkey_collect-IsSealed :
        (nonce : String) → Stays R w (Passkeys.passkey_collect P R w nonce)
    unfolding Passkeys.passkey_collect
    passkey_collect-IsSealed nonce =
        Triple-step _ _ (take-IsSealed nonce) λ c. collected-IsSealed nonce c
