-- ===== src/Session/Expiry.antt =====
-- After its time the agent gives nothing away.
pub mod Requests
pub mod Answers
use blackbag.Common.{
  ℕ, ◌≤◌, ◌≡◌, sym, subst, ◌⊎◌, inl, inr, refl, Bool, true, false, Option, none, some, String,
  arith,
}
use blackbag.Session.Keeps.{
  After, Triple, Keeps, Leaves, Triple-Leaves, Triple-map, Triple-bind, Triple-if, Triple-pure,
  Triple-fails,
}
use blackbag.Session.Keeps.Parts.{held, Leaves-publish}
use blackbag.Session.Life.{
  lock, lock_and_publish, expiry, expire_if_idle, opened, publish, touch, resume, proves,
  drain_lock_signals,
}
use blackbag.Session.State.{
  Agent, AgentError, World, Handler, OpenVault, LockReason, session_ceiling, idle, vault_locked,
}
use blackbag.Session.Step.{modify, ◌>>=◌}

module _ {K : Type 0} where
  -- The session is over at an instant: there is none, or it has reached one of its two ends.
  abbrev pub Over : ℕ → Option (OpenVault K) → Type 0
  Over now none = Unit {0}
  Over now (some o) = (o.ceiling ≤ now) ⊎ (o.deadline ≤ now)

  -- The agent at the time of a request.
  unfoldable pub IsOver : World K → Agent K → Type 0
  unfolding held
  IsOver w a = Over w.now (held a)

  unfoldable pub IsClosed : Agent K → Type 0
  unfolding held
  IsClosed a = held a ≡ none

  module _ (w : World K) where
    expires :
        (o : OpenVault K)
        → Over w.now (some o)
        → (expiry w.now (some o) ≡ some session_ceiling) ⊎ (expiry w.now (some o) ≡ some idle)
    unfolding expiry
    expires o h = ground arith

    -- A lock closes the vault, whether that can be published or not.
    closes :
        (r : LockReason) (a : Agent K)
        → After IsClosed (λ u. IsClosed) (lock_and_publish w (some r) a)
    unfolding lock_and_publish lock held IsClosed
    closes r a =
        (Triple-Leaves held (λ o. o ≡ none) (publish w) (λ s e. e) (Leaves-publish w)).at (lock r a)
          refl

    expire-held :
        (a : Agent K) (o : Option (OpenVault K))
        → held a ≡ o
        → Over w.now o
        → After IsClosed (λ u. IsClosed) (lock_and_publish w (expiry w.now o) a)
    unfolding lock_and_publish expiry IsClosed
    expire-held a none e h = e
    expire-held a (some o) e h = elim (expires o h) [
      | inl c ↦ rw c (closes session_ceiling a)
      | inr c ↦ rw c (closes idle a)
    ]

    pub expire-IsClosed : Triple IsClosed (IsOver w) (expire_if_idle w) (λ u. IsClosed)
    unfolding expire_if_idle held IsOver
    expire-IsClosed = record { at = λ a h. expire-held a a.opened_vault refl h }

    IsClosed→IsOver : (a : Agent K) → IsClosed a → IsOver w a
    unfolding IsClosed IsOver
    IsClosed→IsOver a e = subst (Over w.now) (sym e) tt

    expire-IsOver : Triple (IsOver w) (IsOver w) (expire_if_idle w) (λ u. IsClosed)
    expire-IsOver = Triple-map _ IsClosed→IsOver (λ u a e. e) expire-IsClosed

    resume-none :
        (Q : OpenVault K → Agent K → Type 0) (a : Agent K) (o : Option (OpenVault K))
        → o ≡ none
        → IsClosed a
        → After (IsOver w) Q (resume w o a)
    unfolding resume touch held IsOver IsClosed
    resume-none Q a none e h = rw h tt
    resume-none Q a (some o) e h = cc

    -- The gate of every request that reads the vault stays shut.
    pub opened-IsOver :
        {Q : OpenVault K → Agent K → Type 0} → Triple (IsOver w) (IsOver w) (opened w) Q
    unfolding opened held IsOver IsClosed
    opened-IsOver {Q} =
        Triple-bind (expire_if_idle w) _ expire-IsOver
          λ u. record { at = λ a e. resume-none Q a a.opened_vault e e }

    pub Leaves-IsOver :
        {A : Type 0} (m : Handler K A) → Leaves held m → Keeps (IsOver w) (IsOver w) m
    unfolding IsOver
    Leaves-IsOver m l = Triple-Leaves held (Over w.now) m (λ a h. h) l

    pub proves-IsOver : (pass : String) → Keeps (IsOver w) (IsOver w) (proves w pass)
    unfolding proves
    proves-IsOver pass = search (Triple-if, Triple-pure, Triple-fails, opened-IsOver)

    pub lock-IsOver :
        (f : Agent K → Agent K)
        → ((a : Agent K) → held (f a) ≡ none)
        → Keeps (IsOver w) (IsOver w) (modify {E = AgentError} f)
    unfolding modify IsOver
    lock-IsOver f h = record { at = λ a p. rw (h a) tt }

    pub drain-IsClosed : Keeps IsClosed IsClosed (drain_lock_signals w)
    unfolding drain_lock_signals lock_and_publish IsClosed held
    drain-IsClosed = record { at = λ a h. rw h refl }
