-- ===== src/Session/SshKeys.antt =====
-- The requests of the SSH agent: `SshGenerate`, `SshIdentities`, `SshSign`, `SshApprove`,
-- `SshDismiss`.
use blackbag.Common.{
  Bool, true, false, not, Option, none, some, List, [], ◌∷◌, ◌++◌, String, if◌then◌else◌, str_eq,
  any,
}
use blackbag.Common.Bytes.{Bytes, bytes_eq}
use blackbag.Common.Result.{Result, ok, err}
use blackbag.Common.Text.{trim, prefix}
use blackbag.Audit as Audit
use blackbag.Audit.{Decision}
use blackbag.Policy as Policy
use blackbag.Policy.{ClientKey, Verdict, key_of, consider, remembered, must_ask, blocked}
use blackbag.Record.{Record, ssh, kind_eq, field, attribute, set_field}
use blackbag.Record as Record
use blackbag.Ssh.Key.{Ed25519, SshKey, KeyError, generate, from_seed, public_blob, sign_blob}
use blackbag.Session.Hex.{HexError, hex, unhex}
use blackbag.Session.Life.{
  opened, proves, granted, audited, program_of, publish, note_ssh_pending, clear_ssh_pending,
}
use blackbag.Session.Messages.{
  Reports, Response, SshIdentityView, approval_required, identities, ssh_signature, done,
}
use blackbag.Session.Records.{from_vault, push_record, save}
use blackbag.Session.State.{
  World, Handler, key_error, hex_error, no_such_key, lockdown_is_on, not_the_passphrase,
}
use blackbag.Session.Step.{pure, fail, gets, modify, when, ◌>>=◌, ◌>>◌}
use Prim.Native.String.{◌++◌ as ◌<>◌}

abbrev pub ssh_seed_field : String
ssh_seed_field = "ssh_seed"

abbrev pub ssh_client : String
ssh_client = "ssh-agent"

abbrev pub client : ClientKey
client = key_of (some ssh_client)

abbrev or_empty : Option String → Option String → String
or_empty (some c) title = c
or_empty none (some t) = t
or_empty none none = ""

-- `attribute("comment").or(title).unwrap_or("")`
unfoldable pub comment_of : Record → String
comment_of r = or_empty (attribute r "comment") r.title

abbrev pub from_hex : {K : Type 0} → Result HexError Bytes → Handler K Bytes
from_hex (ok b) = pure b
from_hex (err e) = fail (hex_error e)

-- `unhex(..)?`
unfoldable pub need_hex : {K : Type 0} → Bytes → Handler K Bytes
need_hex text = from_hex (unhex text)

module _ {S : Type 0} (ed25519 : Ed25519 S) (fingerprint : Bytes → String) where
  -- The key that a record holds, if it holds one.
  unfoldable pub key_in : Record → Option (SshKey ed25519)
  key_in r = if not (kind_eq r.kind ssh) then none else elim (field r ssh_seed_field) [
    | none ↦ none
    | some seed ↦ elim (from_seed ed25519 seed) [ err e ↦ none | ok key ↦ some key ]
  ]

  abbrev cons_identity :
      Option (SshKey ed25519) → Record → List SshIdentityView → List SshIdentityView
  cons_identity none r views = views
  cons_identity (some key) r views =
      record {
        key_blob = hex (public_blob ed25519 key);
        comment = comment_of r;
        fingerprint = fingerprint (public_blob ed25519 key);
      }
      ∷ views

  unfoldable pub identity_views : List Record → List SshIdentityView
  identity_views [] = []
  identity_views (r ∷ rs) = cons_identity (key_in r) r (identity_views rs)

  abbrev pub names_blob : Bytes → Option (SshKey ed25519) → Bool
  names_blob want none = false
  names_blob want (some key) = bytes_eq (public_blob ed25519 key) want

  abbrev pub pick :
      Option (SshKey ed25519)
      → Record
      → Bool
      → Option (SshKey ed25519 × String)
      → Option (SshKey ed25519 × String)
  pick (some key) r true rest = some (key, comment_of r)
  pick _ r _ rest = rest

  -- The first record whose key has this public blob, with the key's comment.
  unfoldable pub find_key : Bytes → List Record → Option (SshKey ed25519 × String)
  find_key want [] = none
  find_key want (r ∷ rs) =
      let rest = find_key want rs in let key = key_in r in pick key r (names_blob want key) rest

  abbrev names_fingerprint : String → Option (SshKey ed25519) → Bool
  names_fingerprint want none = false
  names_fingerprint want (some key) = str_eq (fingerprint (public_blob ed25519 key)) want

  abbrev add_comment : String → Record → Record
  add_comment comment r =
      if str_eq comment ""
      then r
      else record r { attributes = r.attributes ++ ("comment", comment) ∷ [] }

  unfoldable pub need_key :
      {K : Type 0} → Result KeyError (SshKey ed25519 × Bytes) → Handler K (SshKey ed25519 × Bytes)
  need_key (ok k) = pure k
  need_key (err e) = fail (key_error e)

  unfoldable pub need_found :
      {K : Type 0} → Option (SshKey ed25519 × String) → Handler K (SshKey ed25519 × String)
  need_found none = fail no_such_key
  need_found (some k) = pure k

  module _ {K : Type 0} (R : Reports) (w : World K) where
    abbrev told : Decision → String → String → Handler K (Unit {0})
    told decision subject detail = audited w Audit.ssh_agent decision subject (some detail)

    abbrev ssh_record : String → String → Bytes → Record
    ssh_record comment shown seed =
        let title = if str_eq comment "" then "ssh " <> prefix 23 shown else comment in
        set_field w.forms.utc
          (add_comment comment (Record.new (w.new_uuid 0) w.forms.utc ssh (some title)))
          ssh_seed_field seed

    unfoldable pub ssh_generate : String → Handler K (Response R)
    ssh_generate said = do
      (key, seed) ← need_key (generate ed25519 w.random)
      from_vault w.disk.open_lock
      o ← opened w
      o' ← push_record o (ssh_record (trim said) (fingerprint (public_blob ed25519 key)) seed)
      save w o'
      publish w
      pure (
          identities (
            record {
              key_blob = hex (public_blob ed25519 key);
              comment = trim said;
              fingerprint = fingerprint (public_blob ed25519 key);
            }
            ∷ []))

    unfoldable pub ssh_identities : Handler K (Response R)
    ssh_identities = do o ← opened w; pure (identities (identity_views o.vault.records))

    -- The verdict on a signature by a key that the vault holds.
    unfoldable pub settle_sign :
        Verdict → Bytes → SshKey ed25519 → String → Bytes → Handler K (Response R)
    settle_sign remembered want key comment message = do
      told Audit.remembered (fingerprint want) comment
      pure (ssh_signature (hex (sign_blob ed25519 key message)))
    settle_sign blocked want key comment message = do
      told Audit.blocked (fingerprint want) comment
      fail lockdown_is_on
    settle_sign must_ask want key comment message = do
      program ← gets (λ a. program_of w a.peer)
      is_new ← note_ssh_pending (fingerprint want) comment
      when is_new (publish w)
      pure (approval_required (fingerprint want) (some comment) "an SSH signature" program)

    unfoldable pub ssh_sign : Bytes → Bytes → Handler K (Response R)
    ssh_sign key_blob data_text = do
      want ← need_hex key_blob
      message ← need_hex data_text
      o ← opened w
      (key, comment) ← need_found (find_key want o.vault.records)
      verdict ← gets (λ a. consider a.approvals client (fingerprint want) Policy.ssh_sign)
      settle_sign verdict want key comment message

    unfoldable pub ssh_approve : String → String → Handler K (Response R)
    ssh_approve shown passphrase = do
      o ← opened w
      if not (any (λ r. names_fingerprint shown (key_in r)) o.vault.records)
          then fail no_such_key
          else (do
            proven ← proves w passphrase
            if proven
                then (do
                  granted client shown Policy.ssh_sign
                  modify (clear_ssh_pending shown)
                  told Audit.approved shown "ssh"
                  publish w
                  pure done)
                else (do told Audit.refused shown "ssh"; fail not_the_passphrase))

    unfoldable pub ssh_dismiss : String → Handler K (Response R)
    ssh_dismiss shown = do modify (clear_ssh_pending shown); publish w; pure done
