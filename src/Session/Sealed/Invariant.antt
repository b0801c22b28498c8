-- ===== src/Session/Sealed/Invariant.antt =====
-- A closed agent stays clear, whatever it is asked.
use blackbag.Common.{◌≡◌, none, List, [], ◌∷◌}
use blackbag.Session.Dispatch.{
  Parts, dispatch, housekeeping, Event, round, connects, signals, asks, happens, after,
}
use blackbag.Session.Keeps.{Keeps, Triple-step, state_of}
use blackbag.Session.Messages.{Reports, Request, Response}
use blackbag.Session.Messages as Messages
use blackbag.Session.Sealed.{
  IsSealed, IsClear, expire_if_idle-IsSealed, drain_lock_signals-IsSealed,
}
use blackbag.Session.Sealed.Requests.{
  reveal-IsSealed, list_records-IsSealed, detail-IsSealed, add-IsSealed, add_many-IsSealed,
  update-IsSealed, delete-IsSealed, hygiene-IsSealed, breach_prefixes-IsSealed,
  breach_match-IsSealed, passkey_begin-IsSealed, passkey_queue-IsSealed, status-IsSealed,
  approvals-IsSealed, ssh_generate-IsSealed, ssh_identities-IsSealed, ssh_sign-IsSealed,
  ssh_approve-IsSealed, secret_list-IsSealed, secret_get-IsSealed, secret_put-IsSealed,
  secret_delete-IsSealed, secret_approve-IsSealed,
}
use blackbag.Session.Sealed.Steps.{
  revoke-IsSealed, lockdown-IsSealed, ssh_dismiss-IsSealed, secret_dismiss-IsSealed,
  lock_now-IsSealed, shutdown_now-IsSealed, touch_now-IsSealed, unlock-IsSealed, totp_code-IsSealed,
}
use blackbag.Session.Sealed.Ceremonies.{passkey_answer-IsSealed, passkey_collect-IsSealed}
use blackbag.Session.State.{Agent, World}

module _ {K : Type 0} (p : Parts) (w : World K) where
  open p use {reports, authenticator, ed25519, fingerprint}

  dispatch-Keeps : (r : Request reports) → Keeps IsSealed IsSealed (dispatch p w r)
  unfolding dispatch
  dispatch-Keeps Messages.status = status-IsSealed reports w
  dispatch-Keeps (Messages.unlock passphrase) = unlock-IsSealed reports w passphrase
  dispatch-Keeps Messages.lock = lock_now-IsSealed reports w
  dispatch-Keeps Messages.touch = touch_now-IsSealed reports w
  dispatch-Keeps (Messages.list_records kind query) =
      list_records-IsSealed reports w p.handle kind query
  dispatch-Keeps (Messages.detail id) = detail-IsSealed reports w p.handle id
  dispatch-Keeps (Messages.reveal id name capability pass) =
      reveal-IsSealed reports w id name capability pass
  dispatch-Keeps (Messages.add draft) = add-IsSealed reports w draft
  dispatch-Keeps (Messages.add_many drafts) = add_many-IsSealed reports w drafts
  dispatch-Keeps (Messages.update id draft) = update-IsSealed reports w id draft
  dispatch-Keeps (Messages.delete id) = delete-IsSealed reports w id
  dispatch-Keeps Messages.hygiene = hygiene-IsSealed reports w
  dispatch-Keeps (Messages.totp_code id capability pass) =
      totp_code-IsSealed reports w p.hmac id capability pass
  dispatch-Keeps Messages.breach_prefixes = breach_prefixes-IsSealed reports w
  dispatch-Keeps (Messages.breach_match ranges) = breach_match-IsSealed reports w ranges
  dispatch-Keeps (Messages.passkey_begin b) =
      passkey_begin-IsSealed reports w authenticator p.text b
  dispatch-Keeps (Messages.passkey_answer nonce approve defer credential pass) =
      passkey_answer-IsSealed reports w authenticator nonce approve defer credential pass
  dispatch-Keeps (Messages.passkey_collect nonce) =
      passkey_collect-IsSealed reports w authenticator nonce
  dispatch-Keeps Messages.passkey_queue = passkey_queue-IsSealed reports w authenticator
  dispatch-Keeps Messages.approvals = approvals-IsSealed reports w
  dispatch-Keeps (Messages.revoke client item) = revoke-IsSealed reports w client item
  dispatch-Keeps (Messages.lockdown on) = lockdown-IsSealed reports w on
  dispatch-Keeps (Messages.ssh_generate comment) =
      ssh_generate-IsSealed reports w ed25519 fingerprint comment
  dispatch-Keeps Messages.ssh_identities = ssh_identities-IsSealed reports w ed25519 fingerprint
  dispatch-Keeps (Messages.ssh_sign blob message) =
      ssh_sign-IsSealed reports w ed25519 fingerprint blob message
  dispatch-Keeps (Messages.ssh_approve shown pass) =
      ssh_approve-IsSealed reports w ed25519 fingerprint shown pass
  dispatch-Keeps (Messages.ssh_dismiss shown) =
      ssh_dismiss-IsSealed reports w ed25519 fingerprint shown
  dispatch-Keeps Messages.secret_list = secret_list-IsSealed reports w
  dispatch-Keeps (Messages.secret_get id pass) = secret_get-IsSealed reports w id pass
  dispatch-Keeps (Messages.secret_put id label attributes text) =
      secret_put-IsSealed reports w id label attributes text
  dispatch-Keeps (Messages.secret_delete id) = secret_delete-IsSealed reports w id
  dispatch-Keeps (Messages.secret_approve id pass) = secret_approve-IsSealed reports w id pass
  dispatch-Keeps (Messages.secret_dismiss id) = secret_dismiss-IsSealed reports w id
  dispatch-Keeps Messages.shutdown = shutdown_now-IsSealed reports w

  housekeeping-Keeps : Keeps IsSealed IsSealed (housekeeping p w)
  unfolding housekeeping
  housekeeping-Keeps =
      Triple-step _ _ (expire_if_idle-IsSealed w) λ u. drain_lock_signals-IsSealed w

  happens-IsSealed : (e : Event p) (a : Agent K) → IsSealed a → IsSealed (happens p w e a)
  unfolding happens
  happens-IsSealed round a h = state_of IsSealed (housekeeping p w a) (housekeeping-Keeps.at a h)
  happens-IsSealed (connects peer) a h = record { cleared = h.cleared }
  happens-IsSealed (signals reason) a h = record { cleared = h.cleared }
  happens-IsSealed (asks r) a h = state_of IsSealed (dispatch p w r a) ((dispatch-Keeps r).at a h)

module _ {K : Type 0} (p : Parts) where
  after-IsSealed :
      (es : List (World K × Event p)) (a : Agent K) → IsSealed a → IsSealed (after p es a)
  unfolding after
  after-IsSealed [] a h = h
  after-IsSealed ((w, e) ∷ es) a h =
      after-IsSealed es (happens p w e a) (happens-IsSealed p w e a h)

  -- From an agent without any approval, ceremony or question, after any events whatever (rounds of the
  -- loop, connections, host events, requests that are answered or refused, in any order and at any
  -- times), an agent whose vault is closed has no approval, no trusted program, no ceremony and
  -- nothing pending.
  pub after-IsClear :
      (es : List (World K × Event p)) (a : Agent K)
      → IsClear a
      → (after p es a).opened_vault ≡ none
      → IsClear (after p es a)
  after-IsClear es a h = (after-IsSealed es a (record { cleared = λ e. h })).cleared
