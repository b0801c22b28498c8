-- ===== src/Session/Access.antt =====
-- The requests on the session itself: `Status`, `Unlock`, `Lock`, `Touch`, `Approvals`, `Revoke`,
-- `Lockdown`, `Shutdown`.
use blackbag.Common.{
  ℕ, ◌+◌, ◌-◌, ◌/◌, min, Bool, true, false, Option, none, some, List, [], ◌∷◌, map, String, ltb,
  leb, ◌==◌, if◌then◌else◌, length,
}
use blackbag.Common.Result.{ok}
use blackbag.Audit as Audit
use blackbag.Audit.{Decision, socket}
use blackbag.Consent.Ceremony.{seconds}
use blackbag.Consent.Desk.{summaries}
use blackbag.Policy as Policy
use blackbag.Policy.{Approvals, ClientKey, Capability, key_of, revoke_client, set_lockdown}
use blackbag.Record.{kind_str}
use blackbag.Vault.{Vault, UnlockMethod, by_passphrase, by_recovery_key, counts_by_kind}
use blackbag.Session.Life.{publish, lock, touch, audited, ok_or_fail}
use blackbag.Session.Messages.{Reports, Response, AgentStatus, status_of, approvals_of, added, done}
use blackbag.Session.Records.{from_vault}
use blackbag.Session.State.{
  Agent, World, Handler, manual, shutdown, clock_overflow, effective_deadline, no_ceiling_secs,
}
use blackbag.Session.Step.{pure, gets, modify, ◌>>=◌, ◌>>◌}
use Prim.Native.String.{◌++◌ as ◌<>◌}

abbrev method_str : UnlockMethod → String
method_str by_passphrase = "passphrase"
method_str by_recovery_key = "recovery-key"

-- Zero stands for no ceiling.
abbrev shown_max_secs : ℕ → ℕ
shown_max_secs d = if leb (seconds no_ceiling_secs) d then 0 else d / seconds 1

module _ {K : Type 0} (w : World K) where
  -- `status_snapshot`. The instants it shows are on the wall clock, to the second.
  unfoldable pub status_snapshot : Agent K → AgentStatus
  status_snapshot a = elim a.opened_vault [
    | some o ↦ record {
      unlocked = true;
      method = some (method_str o.method);
      expires_at = some (w.forms.utc + seconds ((effective_deadline o - w.now) / seconds 1));
      idle_timeout_secs = a.idle_timeout / seconds 1;
      session_ends_at = if ltb 0 (shown_max_secs a.max_session) then some o.ceiling_wall else none;
      max_session_secs = shown_max_secs a.max_session;
      last_lock_reason = a.last_lock_reason;
      pending_passkeys = summaries a.consent w.forms.utc;
      pending_ssh = a.ssh_pending;
      pending_secret = a.secret_pending;
      record_count = length o.vault.records;
      counts_by_kind = map (λ (k, n). (kind_str k, n)) (counts_by_kind o.vault);
      rollback_suspected = o.vault.rollback_suspected;
    }
    | none ↦ record {
      unlocked = false;
      method = none;
      expires_at = none;
      idle_timeout_secs = a.idle_timeout / seconds 1;
      session_ends_at = none;
      max_session_secs = shown_max_secs a.max_session;
      last_lock_reason = a.last_lock_reason;
      pending_passkeys = [];
      pending_ssh = [];
      pending_secret = [];
      record_count = 0;
      counts_by_kind = [];
      rollback_suspected = false;
    }
  ]

  -- A new session: a clean record of exposures, both deadlines from now.
  unfoldable pub start : Vault K → ℕ → Agent K → Agent K
  start v wall a = record a {
    opened_vault = some (record {
      vault = v;
      exposure = [];
      deadline = w.now + a.idle_timeout;
      ceiling = w.now + a.max_session;
      ceiling_wall = wall;
      method = v.unlocked_by;
    });
  }

  -- `i64::MAX as u64 / 4`
  abbrev quarter : ℕ
  quarter = 9_223_372_036_854_775_807 / 4

  module _ (R : Reports) where
    unfoldable pub status : Handler K (Response R)
    status = gets (λ a. status_of (status_snapshot a))

    -- The wall clock of the ceiling is worked out before anything is opened.
    unfoldable pub unlock : String → Handler K (Response R)
    unlock passphrase = do
      v ← from_vault (w.disk.unlock passphrase)
      secs ← gets (λ a. min (a.max_session / seconds 1) quarter)
      wall ← ok_or_fail (w.utc_after secs) clock_overflow
      modify (start v wall)
      publish w
      status

    unfoldable pub lock_now : Handler K (Response R)
    lock_now = do modify (lock manual); publish w; pure done

    unfoldable pub touch_now : Handler K (Response R)
    touch_now = do modify (touch w); status

    unfoldable pub approvals : Handler K (Response R)
    approvals = gets (λ a. approvals_of a.approvals.granted a.approvals.lockdown)

    -- Each capability of an item in turn: what is left, and how many there were.
    unfoldable pub revoke_each : ClientKey → String → List Capability → Approvals → Approvals × ℕ
    revoke_each client item [] a = (a, 0)
    revoke_each client item (c ∷ cs) a =
        let (a', was) = Policy.revoke a client item c in
        let (a'', n) = revoke_each client item cs a' in (a'', if was then n + 1 else n)

    unfoldable pub withdraw : ClientKey → Option String → Approvals → Approvals × ℕ
    withdraw client none a = revoke_client a client
    withdraw client (some item) a =
        revoke_each client item
          (Policy.reveal ∷ Policy.copy ∷ Policy.ssh_sign ∷ Policy.secret_service ∷ []) a

    unfoldable pub set_approvals : Approvals × ℕ → Handler K ℕ
    set_approvals (approvals, n) a = (record a { approvals = approvals }, ok n)

    -- How a count is printed is the formatter's.
    unfoldable pub revoke : String → Option String → Handler K (Response R)
    revoke client item = do
      approvals ← gets (λ a. withdraw (key_of (some client)) item a.approvals)
      n ← set_approvals approvals
      audited w socket Audit.revoked client (
          some (w.show_pid n <> (if n == 1 then " approval withdrawn" else " approvals withdrawn")))
      publish w
      pure (added n)

    abbrev decision_of : Bool → Decision
    decision_of true = Audit.blocked
    decision_of false = Audit.approved

    unfoldable pub lockdown : Bool → Handler K (Response R)
    lockdown on = do
      modify (λ a. record a { approvals = set_lockdown a.approvals on })
      audited w socket (decision_of on) "lockdown" (some (if on then "on" else "off"))
      publish w
      pure done

    unfoldable pub shutdown_now : Handler K (Response R)
    shutdown_now = do
      modify (λ a. lock shutdown (record a { shutdown_requested = true }))
      pure done
