-- ===== src/Session/Earned/Items.antt =====
-- `SecretGet` of session.rs: an item of the Secret Service goes out only for a standing grant or a
-- proof, and it is the item that was named.
use blackbag.Common.{
  Bool-cases, ◌≡◌, refl, inl, inr, subst, Bool, true, false, Option, none, some, String,
  if◌then◌else◌,
}
use blackbag.Common.Result.{Result, ok}
use blackbag.Audit as Audit
use blackbag.Policy as Policy
use blackbag.Policy.{Verdict, consider, remembered, must_ask, blocked}
use blackbag.Record.{Uuid, field}
use blackbag.Vault.{Vault, get}
use blackbag.Session.Earned.{
  Version, verdict-Fixed, Held, Fixed, Any, Found, proves-Found, opened-Fixed, Earned, Triple-known,
  Triple-any, start-Fixed,
}
use blackbag.Session.Earned.Stored.{
  HasVault, opened-Held, keeps-Held, some-known, get-id, Stored, IsField,
}
use blackbag.Session.Items as Items
use blackbag.Session.Items.{client, secret_service_field}
use blackbag.Session.Keeps.{
  After, Triple, Triple-bind, Triple-step, Triple-map, Triple-from, Triple-pure, Triple-fail,
}
use blackbag.Session.Keeps.Parts.{held_rules}
use blackbag.Session.Life.{granted, audited}
use blackbag.Session.Messages.{Reports, Response, secret}
use blackbag.Session.Step.{fail, ◌>>◌}
use blackbag.Session.State.{
  OpenVault, not_the_passphrase, Agent, World, AgentError, invalid_id, record_not_found,
  no_stored_value, not_utf8,
}

module _ {K : Type 0} (R : Reports) (w : World K) (start : Agent K) where
  module _ (id : String) (uuid : Uuid) where
    hand_out_item-IsField :
        Triple
          (Any w start)
          (HasVault w start)
          (Items.hand_out_item R w id uuid)
          (λ x a. IsField w start R secret_service_field uuid x)
    unfolding Items.hand_out_item IsField Stored Held
    hand_out_item-IsField = Triple-bind _ _ (opened-Held w start) λ o.
        Triple-known _ (λ a h. h o refl)
          λ k. Triple-bind _ _ (some-known w start (get o.vault uuid) record_not_found) λ r.
            Triple-known _ (λ a h. h.1)
              λ g.
                Triple-bind _ _ (some-known w start (field r secret_service_field) no_stored_value)
                  λ value.
                    Triple-known _ (λ a h. h.1)
                      λ f. Triple-bind _ _ (some-known w start (w.from_utf8 value) not_utf8) λ text.
                        Triple-known _ (λ a h. h.1)
                          λ t. Triple-bind _ _ (Triple-any _) λ u. Triple-pure _ λ a h.
                            (r, (o.vault, k, g, get-id o.vault uuid r g), value, f, text, t, refl)

    -- What an answer with a secret in it rests on.
    Owed : Option String → Response R → Agent K → Type 0
    Owed pass x a =
        (text : String)
        → x ≡ secret text
        → Earned w start client id Policy.secret_service pass
          × IsField w start R secret_service_field uuid x

    given :
        (pass : Option String)
        → Earned w start client id Policy.secret_service pass
        → Triple (Any w start) (HasVault w start) (Items.hand_out_item R w id uuid) (Owed pass)
    unfolding Owed
    given pass k = Triple-map _ (λ s h. tt) (λ x s h text e. (k, h)) hand_out_item-IsField

    ask_item-Owed :
        {P : Agent K → Type 0} (pass : Option String)
        → Triple (Any w start) P (Items.ask_item R w id uuid) (Owed pass)
    unfolding Items.ask_item Owed
    ask_item-Owed pass = Triple-bind _ _ (Triple-any _) λ g. Triple-bind _ _ (Triple-any _) λ o.
        Triple-bind _ _ (Triple-any _)
          λ u. Triple-bind _ _ (Triple-any _) λ v. Triple-pure _ λ a h text e. cc

    proven-Owed :
        (q : String) (proven : Bool)
        → consider start.approvals client id Policy.secret_service ≡ must_ask
        → Triple
            (Any w start)
            (Found w start q proven)
            (if proven
              then (do
                granted client id Policy.secret_service
                audited w Audit.secret_service Audit.approved id (some "secret-service")
                Items.hand_out_item R w id uuid)
              else (do
                audited w Audit.secret_service Audit.refused id (some "secret-service")
                fail not_the_passphrase))
            (Owed (some q))
    unfolding Found Fixed Earned
    proven-Owed q true v =
        Triple-known _ (λ a h. h.1 refl)
          λ k.
            Triple-from _ (λ a h. h.0.2)
              (Triple-step _ _ (keeps-Held w start _ (search held_rules)) λ u.
                Triple-step _ _ (keeps-Held w start _ (search held_rules))
                  λ u. given (some q) (inr (v, (q, refl, k))))
    proven-Owed q false v = Triple-bind _ _ (Triple-any _) λ u. Triple-fail _ λ a h. tt

    prove_item-Owed :
        (pass : Option String)
        → consider start.approvals client id Policy.secret_service ≡ must_ask
        → Triple (Any w start) (Fixed w start) (Items.prove_item R w id uuid pass) (Owed pass)
    unfolding Items.prove_item
    prove_item-Owed none v = ask_item-Owed none
    prove_item-Owed (some q) v =
        Triple-bind _ _ (proves-Found w start q) λ proven. proven-Owed q proven v

    settle_item-Owed :
        (v : Verdict) (pass : Option String)
        → consider start.approvals client id Policy.secret_service ≡ v
        → Triple (Any w start) (Fixed w start) (Items.settle_item R w v id uuid pass) (Owed pass)
    unfolding Items.settle_item Earned Fixed
    settle_item-Owed remembered pass e = Triple-from _ (λ a h. h.2) (given pass (inl e))
    settle_item-Owed must_ask pass e = prove_item-Owed pass e
    settle_item-Owed blocked pass e = Triple-bind _ _ (Triple-any _) λ u. Triple-fail _ λ a h. tt

  -- The id is that of an item of the Secret Service, in the vault that was held or what a refresh made
  -- of it.
  pub IsServed : Uuid → Type 0
  IsServed uuid =
      (v : Vault K) × ((y : OpenVault K) × (start.opened_vault ≡ some y) × Version w.disk y.vault v)
      × (Items.is_item (get v uuid) ≡ true)

  need_item-Fixed :
      (uuid : Uuid)
      → Triple
          (Any w start)
          (Fixed w start)
          (Items.need_item R w uuid)
          (λ o a. Fixed w start a × IsServed uuid)
  unfolding Items.need_item IsServed Held
  need_item-Fixed uuid = Triple-bind _ _ (opened-Fixed w start) λ o.
      elim (Bool-cases (Items.is_item (get o.vault uuid))) [
        | inl e ↦ rw e (Triple-pure _ λ a h. (h.0, (o.vault, h.1 o refl, e)))
        | inr e ↦ rw e (Triple-fail _ λ a h. tt)
      ]

  module _ (id : String) (pass : Option String) where
    -- The same for the request, whose id has to be read first.
    Named : Response R → Agent K → Type 0
    Named x a =
        (text : String)
        → x ≡ secret text
        → (uuid : Uuid) × (w.parse_uuid id ≡ some uuid)
          × IsServed uuid
          × Earned w start client id Policy.secret_service pass
          × IsField w start R secret_service_field uuid x

    secret_get-Named : Triple (Any w start) (Fixed w start) (Items.secret_get R w id pass) Named
    unfolding Items.secret_get Named Owed
    secret_get-Named = Triple-bind _ _ (some-known w start (w.parse_uuid id) invalid_id) λ uuid.
        Triple-known _ (λ a h. h.1)
          λ i. Triple-bind _ _ (Triple-from _ (λ a h. h.0) (need_item-Fixed uuid)) λ o.
            Triple-known _ (λ a h. h.1)
              λ served.
                Triple-bind _ _
                  (Triple-from _ (λ a h. h.0)
                    (verdict-Fixed w start client id Policy.secret_service))
                  λ v.
                    Triple-known _ (λ a h. h.1)
                      λ e.
                        Triple-from _ (λ a h. h.0)
                          (Triple-map _ (λ s h. tt)
                            (λ x s h text t. let (k, f) = h text t in (uuid, i, served, k, f))
                            (settle_item-Owed id uuid v pass e))

    answer_of :
        (r : Agent K × Result AgentError (Response R)) (a : Agent K) (text : String)
        → After (Any w start) Named r
        → r ≡ (a, ok (secret text))
        → Named (secret text) a
    answer_of r a text h e = subst (After (Any w start) Named) e h

    -- A secret that `SecretGet` hands out is the value of the record whose id the request gives, in
    -- the vault that was held or what a refresh made of it, and that id is the one of an item of the
    -- Secret Service in such a vault. When the request came, the Secret Service had
    -- a grant for that id (or is trusted), or the policy would ask a person and the request has a
    -- passphrase that is not empty and opens that vault.
    pub secret_get-Earned :
        (a : Agent K) (text : String)
        → Items.secret_get R w id pass start ≡ (a, ok (secret text))
        → (uuid : Uuid) × (w.parse_uuid id ≡ some uuid)
          × IsServed uuid
          × Earned w start client id Policy.secret_service pass
          × IsField w start R secret_service_field uuid (secret text)
    unfolding Named
    secret_get-Earned a text e =
        answer_of (Items.secret_get R w id pass start) a text
          (secret_get-Named.at start (start-Fixed w start)) e text refl
