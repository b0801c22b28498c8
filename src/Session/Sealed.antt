-- ===== src/Session/Sealed.antt =====
-- A closed agent holds nothing that was granted, asked or waiting.
pub mod Requests
pub mod Steps
pub mod Ceremonies
pub mod Invariant
use blackbag.Common.{
  ◌≡◌, sym, subst, refl, ◌⊎◌, inl, inr, Bool, true, false, Option, none, some, List, [], String,
}
use blackbag.Common.Assoc.{is_some}
use blackbag.Common.Result.{Result, ok, err}
use blackbag.Consent.Desk as Desk
use blackbag.Policy as Policy
use blackbag.Record.{VaultError}
use blackbag.Vault.{Vault, Disk}
use blackbag.Session.Keeps.{
  After, Triple, Keeps, Leaves, Triple-Leaves, Triple-bind, Triple-if, Triple-pure, Triple-step,
  Triple-fail,
}
use blackbag.Session.Keeps.Parts.{held, Leaves-publish}
use blackbag.Session.Life.{
  lock, lock_and_publish, expiry, expire_if_idle, opened, publish, drain_lock_signals, touch,
  resume, picked_up, proves, put_open,
}
use blackbag.Session.Records.{put_vault}
use blackbag.Session.State.{
  Agent, AgentError, World, Handler, OpenVault, LockReason, rekeyed, vault_rekeyed,
}
use blackbag.Session.Step.{modify, fail, ◌>>=◌, ◌>>◌}

module _ {K : Type 0} where
  -- Nothing is left of a session.
  abbrev pub IsClear : Agent K → Type 0
  IsClear a =
      (a.approvals.granted ≡ [])
      × (a.approvals.trusted ≡ [])
      × (a.consent.pending ≡ [])
      × (a.ssh_pending ≡ [])
      × (a.secret_pending ≡ [])

  pub record IsSealed (a : Agent K) : Type 0 where
    pub cleared : a.opened_vault ≡ none → IsClear a

  unfoldable pub IsOpen : Agent K → Type 0
  IsOpen a = is_some (held a) ≡ true

  pub IsOpen→IsSealed : (a : Agent K) → IsOpen a → IsSealed a
  unfolding IsOpen held
  IsOpen→IsSealed a h = record { cleared = λ e. cc }

  pub IsSealed-lock : (r : LockReason) (a : Agent K) → IsSealed (lock r a)
  unfolding lock Policy.clear Desk.clear
  IsSealed-lock r a = record { cleared = λ e. (refl, refl, refl, refl, refl) }

  -- A step that only writes outside leaves the agent as it is.
  publish-After :
      (w : World K) (P : Agent K → Type 0) (a : Agent K) → P a → After P (λ u. P) (publish w a)
  publish-After w P a h =
      (Triple-Leaves (λ b. b) P (publish w) (λ s p. p) (Leaves-publish w)).at a h

  module _ (w : World K) where
    publish-IsSealed : Keeps IsSealed IsSealed (publish w)
    publish-IsSealed = record { at = publish-After w IsSealed }

    modify-lock-IsSealed :
        (r : LockReason) → Keeps IsSealed IsSealed (modify {E = AgentError} (lock r))
    unfolding modify
    modify-lock-IsSealed r = record { at = λ a h. IsSealed-lock r a }

    lock_and_publish-IsSealed :
        (r : Option LockReason) → Keeps IsSealed IsSealed (lock_and_publish w r)
    unfolding lock_and_publish
    lock_and_publish-IsSealed none = record { at = λ a h. h }
    lock_and_publish-IsSealed (some r) = record {
      at = λ a h. publish-After w IsSealed (lock r a) (IsSealed-lock r a);
    }

    touch-IsSealed : (a : Agent K) → IsSealed a → a.opened_vault ≡ none → IsSealed (touch w a)
    unfolding touch
    touch-IsSealed a h e = record { cleared = λ e'. h.cleared e }

    picked_up-IsOpen :
        (o : OpenVault K) (r : Result VaultError (Vault K))
        → Triple IsSealed IsSealed (picked_up w o r) (λ o'. IsOpen)
    unfolding picked_up IsOpen held
    picked_up-IsOpen o (ok v) = record { at = λ a h. refl }
    picked_up-IsOpen o (err e) =
        Triple-step _ _ (lock_and_publish-IsSealed (some rekeyed)) λ u. Triple-fail _ λ a h. h

    resume-IsOpen :
        (o : Option (OpenVault K)) (a : Agent K)
        → a.opened_vault ≡ o
        → IsSealed a
        → After IsSealed (λ o'. IsOpen) (resume w o a)
    unfolding resume
    resume-IsOpen none a e h = touch-IsSealed a h e
    resume-IsOpen (some o) a e h = (picked_up-IsOpen o (w.disk.refresh o.vault)).at a h

    pub expire_if_idle-IsSealed : Keeps IsSealed IsSealed (expire_if_idle w)
    unfolding expire_if_idle
    expire_if_idle-IsSealed = record {
      at = λ a. (lock_and_publish-IsSealed (expiry w.now a.opened_vault)).at a;
    }

    pub drain_lock_signals-IsSealed : Keeps IsSealed IsSealed (drain_lock_signals w)
    unfolding drain_lock_signals
    drain_lock_signals-IsSealed = record {
      at = λ a h. (lock_and_publish-IsSealed _).at _ (record { cleared = h.cleared });
    }

    -- What passes the gate finds the agent open.
    pub opened-IsOpen : Triple IsSealed IsSealed (opened w) (λ o. IsOpen)
    unfolding opened
    opened-IsOpen =
        Triple-step (expire_if_idle w) _ expire_if_idle-IsSealed
          λ u. record { at = λ a. resume-IsOpen a.opened_vault a refl }

    pub reopened-IsOpen : Triple IsSealed IsOpen (opened w) (λ o. IsOpen)
    reopened-IsOpen = record { at = λ a h. opened-IsOpen.at a (IsOpen→IsSealed a h) }

    pub Leaves-IsOpen : {A : Type 0} (m : Handler K A) → Leaves held m → Keeps IsSealed IsOpen m
    unfolding IsOpen
    Leaves-IsOpen m l = Triple-Leaves held (λ o. is_some o ≡ true) m (λ a. IsOpen→IsSealed a) l

    pub put_open-IsOpen : (o : OpenVault K) → Keeps IsSealed IsOpen (put_open o)
    unfolding put_open IsOpen held
    put_open-IsOpen o = record { at = λ a h. refl }

    pub put_vault-IsOpen : (o : OpenVault K) (v : Vault K) → Keeps IsSealed IsOpen (put_vault o v)
    unfolding put_vault IsOpen held
    put_vault-IsOpen o v = record { at = λ a h. refl }

    pub proves-IsOpen : (pass : String) → Keeps IsSealed IsOpen (proves w pass)
    unfolding proves
    proves-IsOpen pass = search (Triple-if, Triple-pure, Triple-step, reopened-IsOpen)
