-- ===== src/Session/Expiry/Answers.antt =====
-- When its time is over, the agent closes at the next round, and until then gives nothing away.
use blackbag.Common.{◌≡◌, ◌⊎◌, inl, inr, Bool, true, false, Bool-cases}
use blackbag.Common.Result.{Result, ok, err}
use blackbag.Session.Dispatch.{Parts, dispatch, housekeeping, round, happens}
use blackbag.Session.Expiry.{IsOver, IsClosed, expire-IsClosed, drain-IsClosed}
use blackbag.Session.Expiry.Requests.{
  tells, Denied, reveal-Denied, totp_code-Denied, list_records-Denied, detail-Denied, add-Denied,
  add_many-Denied, update-Denied, delete-Denied, hygiene-Denied, breach_prefixes-Denied,
  breach_match-Denied, passkey_begin-Denied, passkey_answer-Denied, revoke-Denied, lockdown-Denied,
  ssh_generate-Denied, ssh_identities-Denied, ssh_sign-Denied, ssh_approve-Denied,
  ssh_dismiss-Denied, secret_list-Denied, secret_get-Denied, secret_put-Denied,
  secret_delete-Denied, secret_approve-Denied, secret_dismiss-Denied, shutdown_now-Denied,
  lock_now-Denied, passkey_collect-Denied,
}
use blackbag.Session.Keeps.{After, Keeps, Triple, Triple-bind, Triple-gets, state_of}
use blackbag.Session.Messages.{Reports, Request, Response}
use blackbag.Session.Messages as Messages
use blackbag.Session.Access as Access
use blackbag.Session.Passkeys as Passkeys
use blackbag.Session.State.{Agent, World, AgentError}

-- Whether a request opens the vault, or puts its end off.
abbrev pub prolongs : {R : Reports} → Request R → Bool
prolongs (Messages.unlock _) = true
prolongs Messages.touch = true
prolongs _ = false

-- Whether a request asks how the agent stands: its status, the ceremonies that wait, the approvals.
abbrev pub asks_state : {R : Reports} → Request R → Bool
asks_state Messages.status = true
asks_state Messages.passkey_queue = true
asks_state Messages.approvals = true
asks_state _ = false

module _ {K : Type 0} (p : Parts) (w : World K) where
  open p use {reports, authenticator, ed25519, fingerprint}

  dispatch-Denied :
      (r : Request reports)
      → prolongs r ≡ false
      → asks_state r ≡ false
      → Triple (IsOver w) (IsOver w) (dispatch p w r) (Denied reports w)
  unfolding dispatch
  dispatch-Denied Messages.status e t = cc
  dispatch-Denied (Messages.unlock pass) e t = cc
  dispatch-Denied Messages.lock e t = lock_now-Denied reports w
  dispatch-Denied Messages.touch e t = cc
  dispatch-Denied (Messages.list_records kind query) e t =
      list_records-Denied reports w p.handle kind query
  dispatch-Denied (Messages.detail id) e t = detail-Denied reports w p.handle id
  dispatch-Denied (Messages.reveal id name capability pass) e t =
      reveal-Denied reports w id name capability pass
  dispatch-Denied (Messages.add draft) e t = add-Denied reports w draft
  dispatch-Denied (Messages.add_many drafts) e t = add_many-Denied reports w drafts
  dispatch-Denied (Messages.update id draft) e t = update-Denied reports w id draft
  dispatch-Denied (Messages.delete id) e t = delete-Denied reports w id
  dispatch-Denied Messages.hygiene e t = hygiene-Denied reports w
  dispatch-Denied (Messages.totp_code id capability pass) e t =
      totp_code-Denied reports w p.hmac id capability pass
  dispatch-Denied Messages.breach_prefixes e t = breach_prefixes-Denied reports w
  dispatch-Denied (Messages.breach_match ranges) e t = breach_match-Denied reports w ranges
  dispatch-Denied (Messages.passkey_begin b) e t =
      passkey_begin-Denied reports w authenticator p.text b
  dispatch-Denied (Messages.passkey_answer nonce approve defer credential pass) e t =
      passkey_answer-Denied reports w authenticator nonce approve defer credential pass
  dispatch-Denied (Messages.passkey_collect nonce) e t =
      passkey_collect-Denied reports w authenticator nonce
  dispatch-Denied Messages.passkey_queue e t = cc
  dispatch-Denied Messages.approvals e t = cc
  dispatch-Denied (Messages.revoke client item) e t = revoke-Denied reports w client item
  dispatch-Denied (Messages.lockdown on) e t = lockdown-Denied reports w on
  dispatch-Denied (Messages.ssh_generate comment) e t =
      ssh_generate-Denied reports w ed25519 fingerprint comment
  dispatch-Denied Messages.ssh_identities e t = ssh_identities-Denied reports w ed25519 fingerprint
  dispatch-Denied (Messages.ssh_sign blob message) e t =
      ssh_sign-Denied reports w ed25519 fingerprint blob message
  dispatch-Denied (Messages.ssh_approve shown pass) e t =
      ssh_approve-Denied reports w ed25519 fingerprint shown pass
  dispatch-Denied (Messages.ssh_dismiss shown) e t =
      ssh_dismiss-Denied reports w ed25519 fingerprint shown
  dispatch-Denied Messages.secret_list e t = secret_list-Denied reports w
  dispatch-Denied (Messages.secret_get id pass) e t = secret_get-Denied reports w id pass
  dispatch-Denied (Messages.secret_put id label attributes text) e t =
      secret_put-Denied reports w id label attributes text
  dispatch-Denied (Messages.secret_delete id) e t = secret_delete-Denied reports w id
  dispatch-Denied (Messages.secret_approve id pass) e t = secret_approve-Denied reports w id pass
  dispatch-Denied (Messages.secret_dismiss id) e t = secret_dismiss-Denied reports w id
  dispatch-Denied Messages.shutdown e t = shutdown_now-Denied reports w

  -- A request for the state changes nothing.
  dispatch-state :
      (r : Request reports) → asks_state r ≡ true → Keeps (IsOver w) (IsOver w) (dispatch p w r)
  unfolding dispatch Access.status Access.approvals Passkeys.passkey_queue
  dispatch-state Messages.status e = Triple-gets _ λ a h. h
  dispatch-state Messages.passkey_queue e = Triple-gets _ λ a h. h
  dispatch-state Messages.approvals e = Triple-gets _ λ a h. h
  dispatch-state _ e = cc

  -- Nothing but a refusal, or that something was done, to how many, is waited for or is left to a
  -- security key.
  abbrev pub TellsNothing : Result AgentError (Response reports) → Type 0
  TellsNothing (ok x) = tells x ≡ false
  TellsNothing (err e) = Unit {0}

  answer_told :
      (r : Agent K × Result AgentError (Response reports))
      → After (IsOver w) (Denied reports w) r
      → IsOver w r.0 × TellsNothing r.1
  unfolding Denied
  answer_told (a, ok x) h = h
  answer_told (a, err e) h = (h, tt)

  -- When the session's ceiling or its idle deadline is reached, or no vault is open, every request but
  -- `Unlock`, `Touch`, `Status`, `PasskeyQueue` and `Approvals` is refused, or answered with no more
  -- than that something was done, how many approvals were withdrawn, that a person is waited for, or
  -- that a security key is to be used, also before the loop has closed the vault. The session stays
  -- over, after those last three too.
  pub dispatch-IsOver :
      (r : Request reports) (a : Agent K)
      → prolongs r ≡ false
      → IsOver w a
      → IsOver w (dispatch p w r a).0 × ((asks_state r ≡ true) ⊎ TellsNothing (dispatch p w r a).1)
  dispatch-IsOver r a e h = elim (Bool-cases (asks_state r)) [
    | inl t ↦ (state_of (IsOver w) (dispatch p w r a) ((dispatch-state r t).at a h), inl t)
    | inr f ↦
        let (over, quiet) = answer_told (dispatch p w r a) ((dispatch-Denied r e f).at a h) in
        (over, inr quiet)
  ]

  -- At the first round of the loop that starts at or after the ceiling or the idle deadline, the vault
  -- is closed, whether the new status can be published or not.
  pub round-IsClosed : (a : Agent K) → IsOver w a → IsClosed (happens p w round a)
  unfolding happens housekeeping
  round-IsClosed a h =
      state_of IsClosed (housekeeping p w a)
        ((Triple-bind _ _ (expire-IsClosed w) λ u. drain-IsClosed w).at a h)
