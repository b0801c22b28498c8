-- ===== src/Session/Life.antt =====
-- What locks the agent, and what each request goes through first.
use blackbag.Common.{
  ℕ, ◌+◌, Bool, true, false, not, ◌||◌, Option, none, some, List, [], ◌∷◌, ◌++◌, String, ltb, leb,
  if◌then◌else◌, str_eq, any, filter,
}
use blackbag.Common.Assoc.{is_some}
use blackbag.Common.Result.{Result, ok, err}
use blackbag.Audit.{Surface, Decision}
use blackbag.Consent.Desk as Desk
use blackbag.Policy as Policy
use blackbag.Policy.{Capability, ClientKey, for_peer}
use blackbag.Record.{Uuid, VaultError}
use blackbag.Vault.{Vault}
use blackbag.Session.Step.{pure, fail, gets, modify, ◌>>=◌, ◌>>◌}
use blackbag.Session.State.{
  Agent, OpenVault, PeerId, Line, LockReason, session_ceiling, idle, rekeyed, World, Handler,
  AgentError, status_not_published, vault_locked, vault_rekeyed,
}
use Prim.Native.String.{len}

-- `reject_secret_looking`
abbrev pub overlong : Option String → Bool
overlong none = false
overlong (some d) = ltb 128 (len d)

abbrev peer_pid : Option PeerId → ℕ
peer_pid none = 0
peer_pid (some p) = p.pid

abbrev append_line : Option (List Line) → Line → Option (List Line)
append_line none line = none
append_line (some lines) line = some (lines ++ line ∷ [])

abbrev pub last : LockReason → List LockReason → LockReason
last r [] = r
last r (s ∷ ss) = last s ss

abbrev received : Option (List LockReason) → Option LockReason
received none = none
received (some []) = none
received (some (r ∷ rs)) = some (last r rs)

abbrev drained : Option (List LockReason) → Option (List LockReason)
drained none = none
drained (some rs) = some []

module _ {K : Type 0} where
  abbrev pub is_open : Agent K → Bool
  is_open a = is_some a.opened_vault

  -- `publish`, which fails when the file cannot be written.
  unfoldable pub publish : World K → Handler K (Unit {0})
  publish w = do there ← gets w.publishes; if there then pure tt else fail status_not_published

  -- `self.peer.and_then(|p| PeerId::program(p.pid))`
  abbrev pub program_of : World K → Option PeerId → Option String
  program_of w none = none
  program_of w (some p) = w.program p.pid

  unfoldable pub record_audit :
      World K → Surface → Decision → String → Option String → Agent K → Agent K
  record_audit w surface decision subject detail a = record a {
    history =
        if overlong detail || not w.audit_writes
        then a.history
        else append_line a.history (record {
          uid = w.getuid;
          pid = peer_pid a.peer;
          program = program_of w a.peer;
          surface = surface;
          decision = decision;
          subject = subject;
          detail = detail;
        });
  }

  abbrev pub audited : World K → Surface → Decision → String → Option String → Handler K (Unit {0})
  audited w surface decision subject detail =
      modify (record_audit w surface decision subject detail)

  -- The reason stays what it was when nothing was open.
  abbrev reason_after : Option (OpenVault K) → LockReason → Option LockReason → Option LockReason
  reason_after none reason last = last
  reason_after (some o) reason last = some reason

  unfoldable pub lock : LockReason → Agent K → Agent K
  lock reason a = record a {
    approvals = Policy.clear a.approvals;
    consent = Desk.clear a.consent;
    ssh_pending = [];
    secret_pending = [];
    opened_vault = none;
    last_lock_reason = reason_after a.opened_vault reason a.last_lock_reason;
  }

  unfoldable pub clear_ssh_pending : String → Agent K → Agent K
  clear_ssh_pending fingerprint a = record a {
    ssh_pending = filter (λ p. not (str_eq p.fingerprint fingerprint)) a.ssh_pending;
  }

  unfoldable pub clear_secret_pending : Uuid → Agent K → Agent K
  clear_secret_pending item a = record a {
    secret_pending = filter (λ p. not (str_eq p.item item)) a.secret_pending;
  }

  -- Whether it was added comes back.
  unfoldable pub note_ssh_pending : String → String → Handler K Bool
  note_ssh_pending fingerprint comment = do
    known ← gets (λ a. any (λ p. str_eq p.fingerprint fingerprint) a.ssh_pending)
    if known then pure false else (do
      modify (λ a. record a {
        ssh_pending = a.ssh_pending ++ record { fingerprint = fingerprint; comment = comment } ∷ [];
      })
      pure true)

  unfoldable pub note_secret_pending : Uuid → String → Agent K → Agent K
  note_secret_pending item label a = record a {
    secret_pending =
        if any (λ p. str_eq p.item item) a.secret_pending
        then a.secret_pending
        else a.secret_pending ++ record { item = item; label = label } ∷ [];
  }

  -- Lock, and say so.
  unfoldable pub lock_and_publish : World K → Option LockReason → Handler K (Unit {0})
  lock_and_publish w none a = (a, ok tt)
  lock_and_publish w (some reason) a = publish w (lock reason a)

  unfoldable pub drain_lock_signals : World K → Handler K (Unit {0})
  drain_lock_signals w a =
      lock_and_publish w (if is_open a then received a.lock_signals else none)
        (record a { lock_signals = drained a.lock_signals })

  -- Why an open vault is not to stay open at this instant; the ceiling is looked at first.
  unfoldable pub expiry : ℕ → Option (OpenVault K) → Option LockReason
  expiry now none = none
  expiry now (some o) =
      if leb o.ceiling now
      then some session_ceiling
      else if leb o.deadline now
      then some idle
      else none

  unfoldable pub expire_if_idle : World K → Handler K (Unit {0})
  expire_if_idle w a = lock_and_publish w (expiry w.now a.opened_vault) a

  abbrev pub slide : ℕ → Option (OpenVault K) → Option (OpenVault K)
  slide deadline none = none
  slide deadline (some o) = some (record o { deadline = deadline })

  unfoldable pub touch : World K → Agent K → Agent K
  touch w a = record a { opened_vault = slide (w.now + a.idle_timeout) a.opened_vault }

  -- What `refresh` says: the file was read with the key that is held, or it has another key by now.
  unfoldable pub picked_up :
      World K → OpenVault K → Result VaultError (Vault K) → Handler K (OpenVault K)
  picked_up w o (err e) = lock_and_publish w (some rekeyed) >> fail vault_rekeyed
  picked_up w o (ok v) = λ a.
      let o' : OpenVault K = record o { vault = v; deadline = w.now + a.idle_timeout } in
      (record a { opened_vault = some o' }, ok o')

  -- The end of `opened`: pick up the file, slide the deadline, and give the open vault.
  unfoldable pub resume : World K → Option (OpenVault K) → Handler K (OpenVault K)
  resume w none a = (touch w a, err vault_locked)
  resume w (some o) a = picked_up w o (w.disk.refresh o.vault) a

  unfoldable pub opened : World K → Handler K (OpenVault K)
  opened w = expire_if_idle w >> λ a. resume w a.opened_vault a

  -- Put back what a handler changed through `&mut OpenVault`.
  unfoldable pub put_open : OpenVault K → Handler K (Unit {0})
  put_open o a = (record a { opened_vault = some o }, ok tt)

  -- The proof that goes with a request: a passphrase that is not empty and opens the vault that is held.
  unfoldable pub proves : World K → String → Handler K Bool
  proves w pass =
      if str_eq pass ""
      then pure false
      else (do o ← opened w; pure (w.disk.passphrase_matches o.vault pass))

  -- `ClientKey::for_peer` of the caller.
  unfoldable pub client_of : World K → Option PeerId → ClientKey
  client_of w peer = for_peer w.show_pid (program_of w peer) (peer_pid peer)

  abbrev pub granted : ClientKey → String → Capability → Handler K (Unit {0})
  granted client item capability =
      modify (λ a. record a { approvals = Policy.grant a.approvals client item capability })

  abbrev pub ok_or_fail : {A : Type 0} → Option A → AgentError → Handler K A
  ok_or_fail none e = fail e
  ok_or_fail (some x) e = pure x
