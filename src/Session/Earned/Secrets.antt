-- ===== src/Session/Earned/Secrets.antt =====
-- Secrets and codes: whoever gets one has it granted, or has proven the passphrase.
use blackbag.Common.{
  inl, inr, ap, subst, ◌≡◌, refl, Bool, true, false, Option, none, some, if◌then◌else◌, String,
}
use blackbag.Common.Result.{Result, ok}
use blackbag.Policy.{Capability, ClientKey, Verdict, consider, remembered, must_ask, blocked}
use blackbag.Record.{Uuid}
use blackbag.Totp.{Hmac}
use blackbag.Session.Life.{client_of}
use blackbag.Session.Earned.Stored.{
  HasVault, keeps-Held, some-known, IsField, IsCode, hand_out-IsField, hand_out_code-IsCode,
}
use blackbag.Session.Keeps.Parts.{held_rules}
use blackbag.Session.Keeps.{
  Triple-map, After, Triple, Triple-bind, Triple-from, Triple-if, Triple-pure, Triple-fail,
  Triple-gets,
}
use blackbag.Session.Messages.{Reports, Request, Response, RecordDraft, PasskeyBegin}
use blackbag.Session.Messages as Messages
use blackbag.Session.Reveal as Reveal
use blackbag.Session.State.{Agent, World, Handler, AgentError, invalid_id}
use blackbag.Session.Step.{gets}
use blackbag.Session.Earned.{
  verdict-Fixed, Fixed, Any, Found, proves-Found, opened-Fixed, Earned, Triple-known, Triple-any,
  start-Fixed,
}

module _ {K : Type 0} (R : Reports) (w : World K) (start : Agent K) where
  -- Whether to go on, the vault being a version of what was held.
  Allowed : ClientKey → String → Capability → Option String → Bool → Agent K → Type 0
  Allowed client item c pass b a =
      HasVault w start a × (b ≡ true → Earned w start client item c pass)

  module _ (client : ClientKey) (uuid : Uuid) (c : Capability) (subject : String) where
    conclude-Allowed :
        (q : String) (proven : Bool)
        → consider start.approvals client uuid c ≡ must_ask
        → Triple
            (Any w start)
            (Found w start q proven)
            (Reveal.conclude R w client uuid c subject proven)
            (Allowed client uuid c (some q))
    unfolding Reveal.conclude Allowed Found Earned Fixed
    conclude-Allowed q true v =
        Triple-known _ (λ a h. h.1 refl)
          λ k.
            Triple-from _ (λ a h. h.0.2)
              (Triple-map _ (λ s h. tt) (λ x s h. (h, λ e. inr (v, (q, refl, k))))
                (keeps-Held w start _ (search held_rules)))
    conclude-Allowed q false v = Triple-bind _ _ (Triple-any _) λ u. Triple-fail _ λ a h. tt

    ask_proof-Allowed :
        (pass : Option String)
        → consider start.approvals client uuid c ≡ must_ask
        → Triple
            (Any w start)
            (Fixed w start)
            (Reveal.ask_proof R w client uuid c subject pass)
            (Allowed client uuid c pass)
    unfolding Reveal.ask_proof Allowed Fixed
    ask_proof-Allowed none v = Triple-pure false λ a h. (h.2, λ e. cc)
    ask_proof-Allowed (some q) v =
        Triple-bind _ _ (proves-Found w start q) λ proven. conclude-Allowed q proven v

    reveal_allowed-Allowed :
        (v : Verdict) (pass : Option String)
        → consider start.approvals client uuid c ≡ v
        → Triple
            (Any w start)
            (Fixed w start)
            (Reveal.reveal_allowed R w v client uuid c subject pass)
            (Allowed client uuid c pass)
    unfolding Reveal.reveal_allowed Allowed Earned Fixed
    reveal_allowed-Allowed remembered pass e =
        Triple-from _ (λ a h. h.2)
          (Triple-map _ (λ s h. tt) (λ x s h. (h, λ i. inl e))
            (keeps-Held w start _ (search held_rules)))
    reveal_allowed-Allowed must_ask pass e = ask_proof-Allowed pass e
    reveal_allowed-Allowed blocked pass e =
        Triple-bind _ _ (Triple-any _) λ u. Triple-fail _ λ a h. tt

    code_allowed-Allowed :
        (hmac : Hmac) (v : Verdict) (pass : Option String)
        → consider start.approvals client uuid c ≡ v
        → Triple
            (Any w start)
            (Fixed w start)
            (Reveal.code_allowed R w hmac v client uuid c subject pass)
            (Allowed client uuid c pass)
    unfolding Reveal.code_allowed Allowed Earned Fixed
    code_allowed-Allowed hmac remembered pass e = Triple-pure true λ a h. (h.2, λ i. inl e)
    code_allowed-Allowed hmac must_ask pass e = ask_proof-Allowed pass e
    code_allowed-Allowed hmac blocked pass e =
        Triple-bind _ _ (Triple-any _) λ u. Triple-fail _ λ a h. tt

  -- Whether an answer hands something out.
  abbrev pub hands_out : Response R → Bool
  hands_out (Messages.secret v) = true
  hands_out (Messages.totp code ttl step) = true
  hands_out (Messages.ssh_signature s) = true
  hands_out _ = false

  -- An answer that hands something out is `T` of the record, and was earned.
  Entitled :
      (Uuid → Response R → Type 0)
      → String
      → Option Capability
      → Option String
      → Response R
      → Agent K
      → Type 0
  Entitled T id c pass x a =
      hands_out x ≡ true
      → (uuid : Uuid) × (w.parse_uuid id ≡ some uuid)
        × Earned w start (client_of w start.peer) uuid (Reveal.or_reveal c) pass
        × T uuid x

  answer_of :
      (T : Uuid → Response R → Type 0) (r : Agent K × Result AgentError (Response R)) (id : String)
      (c : Option Capability) (pass : Option String) (a : Agent K) (x : Response R)
      → After (Any w start) (Entitled T id c pass) r
      → r ≡ (a, ok x)
      → Entitled T id c pass x a
  answer_of T r id c pass a x h e = subst (After (Any w start) (Entitled T id c pass)) e h

  ask-Entitled :
      (T : Uuid → Response R → Type 0) {P : Agent K → Type 0} (id : String) (c : Option Capability)
      (pass : Option String) (uuid : Uuid) (name : String)
      → Triple (Any w start) P (Reveal.ask R w uuid name) (Entitled T id c pass)
  unfolding Reveal.ask Entitled
  ask-Entitled T id c pass uuid name =
      Triple-bind _ _ (Triple-any _)
        λ o. Triple-bind _ _ (Triple-any _) λ g. Triple-pure _ λ a h e. cc

  -- The caller and the verdict as the start has them.
  caller-Fixed :
      {P : Agent K → Type 0}
      → ((a : Agent K) → P a → Fixed w start a)
      → Triple
          (Any w start)
          P
          (gets {E = AgentError} (λ a. client_of w a.peer))
          (λ x a. Fixed w start a × (x ≡ client_of w start.peer))
  unfolding Fixed
  caller-Fixed f = Triple-gets _ λ a h. (f a h, ap (client_of w) (f a h).1)

  -- The end of both requests.
  finish-Entitled :
      (T : Uuid → Response R → Type 0) (id : String) (c : Option Capability) (pass : Option String)
      (uuid : Uuid) (name : String) (client : ClientKey) (allowed : Bool)
      (m : Handler K (Response R))
      → w.parse_uuid id ≡ some uuid
      → client ≡ client_of w start.peer
      → Triple (Any w start) (HasVault w start) m (λ x a. T uuid x)
      → Triple
          (Any w start)
          (Allowed client uuid (Reveal.or_reveal c) pass allowed)
          (if allowed then m else Reveal.ask R w uuid name)
          (Entitled T id c pass)
  unfolding Allowed Entitled
  finish-Entitled T id c pass uuid name client true m i same t =
      Triple-known _ (λ a h. h.1 refl)
        λ k.
          Triple-from _ (λ a h. h.0)
            (Triple-map _ (λ s h. tt)
              (λ x s h e.
                (uuid, i, subst (λ z. Earned w start z uuid (Reveal.or_reveal c) pass) same k, h))
              t)
  finish-Entitled T id c pass uuid name client false m i same t = ask-Entitled T id c pass uuid name

  module _ (id : String) (c : Option Capability) (pass : Option String) where
    reveal-Entitled :
        (name : String)
        → Triple
            (Any w start)
            (Fixed w start)
            (Reveal.reveal R w id name c pass)
            (Entitled (IsField w start R name) id c pass)
    unfolding Reveal.reveal
    reveal-Entitled name = Triple-bind _ _ (some-known w start (w.parse_uuid id) invalid_id) λ uuid.
        Triple-known _ (λ a h. h.1)
          λ i. Triple-bind _ _ (Triple-from _ (λ a h. h.0) (opened-Fixed w start)) λ o.
            Triple-if _ _ _ (Triple-fail _ λ a h. tt) (
              Triple-bind _ _ (caller-Fixed λ a h. h.0) λ client.
                Triple-known _ (λ a h. h.1)
                  λ same.
                    Triple-bind _ _
                      (Triple-from _ (λ a h. h.0)
                        (verdict-Fixed w start client uuid (Reveal.or_reveal c)))
                      λ v.
                        Triple-known _ (λ a h. h.1)
                          λ e.
                            Triple-bind _ _
                              (Triple-from _ (λ a h. h.0)
                                (reveal_allowed-Allowed client uuid (Reveal.or_reveal c) _ v pass
                                  e))
                              λ allowed.
                                finish-Entitled (IsField w start R name) id c pass uuid name client
                                  allowed (Reveal.hand_out R w uuid name) i same
                                  (hand_out-IsField w start R uuid name))

    totp_code-Entitled :
        (hmac : Hmac)
        → Triple
            (Any w start)
            (Fixed w start)
            (Reveal.totp_code R w hmac id c pass)
            (Entitled (IsCode w start R hmac) id c pass)
    unfolding Reveal.totp_code
    totp_code-Entitled hmac =
        Triple-bind _ _ (some-known w start (w.parse_uuid id) invalid_id) λ uuid.
          Triple-known _ (λ a h. h.1)
            λ i. Triple-bind _ _ (caller-Fixed λ a h. h.0) λ client.
              Triple-known _ (λ a h. h.1)
                λ same.
                  Triple-bind _ _
                    (Triple-from _ (λ a h. h.0)
                      (verdict-Fixed w start client uuid (Reveal.or_reveal c)))
                    λ v.
                      Triple-known _ (λ a h. h.1)
                        λ e.
                          Triple-bind _ _
                            (Triple-from _ (λ a h. h.0)
                              (code_allowed-Allowed client uuid (Reveal.or_reveal c) _ hmac v pass
                                e))
                            λ allowed.
                              finish-Entitled (IsCode w start R hmac) id c pass uuid "totp" client
                                allowed (Reveal.hand_out_code R w hmac uuid) i same
                                (hand_out_code-IsCode w start R hmac uuid)

  -- An answer of `Reveal` that hands out a secret goes to a caller that had a grant for that record and
  -- that use when the request came (or is trusted), or for which the policy would ask a person, with a
  -- passphrase in the request that is not empty and opens the vault that was held, or what a refresh
  -- made of it. What is handed out is the field of that name of the record whose id the request gives,
  -- in the vault that was held or what a refresh made of it.
  pub reveal-Earned :
      (id name : String) (c : Option Capability) (pass : Option String) (a : Agent K)
      (x : Response R)
      → Reveal.reveal R w id name c pass start ≡ (a, ok x)
      → hands_out x ≡ true
      → (uuid : Uuid) × (w.parse_uuid id ≡ some uuid)
        × Earned w start (client_of w start.peer) uuid (Reveal.or_reveal c) pass
        × IsField w start R name uuid x
  unfolding Entitled
  reveal-Earned id name c pass a x =
      answer_of (IsField w start R name) (Reveal.reveal R w id name c pass start) id c pass a x
        ((reveal-Entitled id c pass name).at start (start-Fixed w start))

  -- An answer of `TotpCode` that hands out a code goes to a caller that had a grant for that record and
  -- that use when the request came (or is trusted), or for which the policy would ask a person, with a
  -- passphrase in the request that is not empty and opens the vault that was held, or what a refresh
  -- made of it. The code is that of this second under the key and the settings of the record whose id
  -- the request gives, in the vault that was held or what a refresh made of it.
  pub totp_code-Earned :
      (hmac : Hmac) (id : String) (c : Option Capability) (pass : Option String) (a : Agent K)
      (x : Response R)
      → Reveal.totp_code R w hmac id c pass start ≡ (a, ok x)
      → hands_out x ≡ true
      → (uuid : Uuid) × (w.parse_uuid id ≡ some uuid)
        × Earned w start (client_of w start.peer) uuid (Reveal.or_reveal c) pass
        × IsCode w start R hmac uuid x
  unfolding Entitled
  totp_code-Earned hmac id c pass a x =
      answer_of (IsCode w start R hmac) (Reveal.totp_code R w hmac id c pass start) id c pass a x
        ((totp_code-Entitled id c pass hmac).at start (start-Fixed w start))
