-- ===== src/Session/Draft.antt =====
-- `RecordDraft::into_record` and `apply_to`: a record is changed step by step, and what was changed
-- before an error stays changed.
pub mod Keys
use blackbag.Common.{
  ℕ, Bool, true, false, not, ◌||◌, Option, none, some, List, [], ◌∷◌, ◌++◌, map, String,
  if◌then◌else◌, str_eq, any, filter,
}
use blackbag.Common.Assoc.{is_some}
use blackbag.Common.Bytes.{Bytes}
use blackbag.Common.Result.{Result, ok, err}
use blackbag.Common.Text.{codes, lower_codes, codes_eq, trim}
use blackbag.Record.{
  VaultError, Kind, passkey, parse_kind, kind_eq, Record, Uuid, TotpConfig, default_totp, set_field,
  field, validate,
}
use blackbag.Record as Record
use blackbag.Totp.{TotpAlgorithm, sha1, sha256, sha512}
use blackbag.Session.Messages.{RecordDraft, TotpDraft}
use blackbag.Session.State.{
  AgentError, Forms, vault_error, unknown_kind, nameless_field, no_totp_seed, refused_elsewhere,
}
use blackbag.Session.Step.{Step, pure, fail, lift, gets, modify, ◌>>=◌, ◌>>◌}

-- `crate::passkey::PRIVATE_KEY_FIELD` and `PRF_SEED_FIELD`
abbrev pub private_key_field : String
private_key_field = "private_key"

abbrev pub prf_seed_field : String
prf_seed_field = "prf_seed"

abbrev is_blank : String → Bool
is_blank s = str_eq (trim s) ""

abbrev filled : Option String → Option String
filled none = none
filled (some s) = if is_blank s then none else some s

-- `if let Some(v) = .. { if !v.is_empty() { slot = Some(v) } }`
abbrev replaced : Option String → Option String → Option String
replaced none old = old
replaced (some v) old = if str_eq v "" then old else some v

abbrev or_keep : {A : Type 0} → Option A → A → A
or_keep none old = old
or_keep (some v) old = v

-- The names compare in upper case in the source.
abbrev algorithm_named : String → TotpAlgorithm
algorithm_named name =
    if codes_eq (lower_codes name) (codes "sha256")
    then sha256
    else if codes_eq (lower_codes name) (codes "sha512")
    then sha512
    else sha1

abbrev chosen_algorithm : Option String → TotpAlgorithm → TotpAlgorithm
chosen_algorithm none old = old
chosen_algorithm (some name) old = algorithm_named name

abbrev names_of : List (String × String) → List String
names_of secrets = map (λ (n, v). n) secrets

abbrev totp_field : Bool → List String
totp_field true = "totp" ∷ []
totp_field false = []

abbrev passkey_fields : Bool → List String
passkey_fields true = private_key_field ∷ prf_seed_field ∷ []
passkey_fields false = []

-- The fields that the draft lets stand, on a record of a kind.
unfoldable pub kept : RecordDraft → Kind → List String
kept d kind =
    names_of d.secrets ++ (totp_field (is_some d.totp) ++ passkey_fields (kind_eq kind passkey))

unfoldable pub is_kept : RecordDraft → Kind → String → Bool
is_kept d kind name = any (λ k. str_eq k name) (kept d kind)

abbrev Edit : Type 0 → Type 0
Edit A = Step AgentError Record A

module _ (f : Forms) where
  -- The loop over the draft's secrets; an empty one leaves its field as it is.
  unfoldable pub set_secrets : List (String × String) → Edit (List String)
  set_secrets [] = pure []
  set_secrets ((name, value) ∷ rest) =
      if is_blank name
      then fail nameless_field
      else if str_eq value ""
      then set_secrets rest
      else (do
        modify (λ r. set_field f.utc r name (f.utf8 value))
        changed ← set_secrets rest
        pure (name ∷ changed))

  -- Fields that the draft does not let stand go.
  unfoldable pub prune : RecordDraft → Edit (List String)
  prune d r = (
    record r { fields = filter (λ x. is_kept d r.kind x.name) r.fields },
    ok (map (λ x. x.name) (filter (λ x. not (is_kept d r.kind x.name)) r.fields)),
  )

  abbrev with_default : Result AgentError Bytes → Result AgentError (Bytes × TotpConfig)
  with_default (ok b) = ok (b, default_totp)
  with_default (err e) = err e

  abbrev totp_seed : Option String → Option String → Record → Result AgentError (Bytes × TotpConfig)
  totp_seed (some uri) b32 r = f.parse_otpauth (trim uri)
  totp_seed none (some b32) r = with_default (f.decode_base32 b32)
  totp_seed none none r = elim (field r "totp") [
    | some secret ↦ ok (secret, or_keep r.totp default_totp)
    | none ↦ err no_totp_seed
  ]

  abbrev configured : TotpDraft → TotpConfig → TotpConfig
  configured t c = record {
    issuer = replaced t.issuer c.issuer;
    account = replaced t.account c.account;
    digits = or_keep t.digits c.digits;
    step = or_keep t.step c.step;
    skew = c.skew;
    algorithm = chosen_algorithm t.algorithm c.algorithm;
  }

  unfoldable pub set_totp : Option TotpDraft → Edit (Unit {0})
  set_totp none = modify (λ r. record r { totp = none })
  set_totp (some t) = do
    seed ← gets (λ r. totp_seed (filled t.otpauth_uri) (filled t.secret_base32) r)
    got ← lift seed
    modify (λ r. record (set_field f.utc r "totp" got.0) { totp = some (configured t got.1) })

  abbrev set_notes : Option String → Option Bytes → Option Bytes
  set_notes none old = old
  set_notes (some text) old = if str_eq text "" then none else some (f.utf8 text)

  abbrev checked : Result VaultError (Unit {0}) → Result AgentError (Unit {0})
  checked (ok u) = ok u
  checked (err e) = err (vault_error e)

  unfoldable pub check : Edit (Unit {0})
  check r = (r, checked (validate r))

  unfoldable pub need_kind : Option Kind → Edit Kind
  need_kind none = fail unknown_kind
  need_kind (some k) = pure k

  unfoldable pub apply_to : RecordDraft → Edit (List String)
  apply_to d = do
    kind ← need_kind (parse_kind d.kind)
    modify
        (λ r. record r { kind = kind; title = d.title; tags = d.tags; attributes = d.attributes })
    set ← set_secrets d.secrets
    gone ← prune d
    set_totp d.totp
    modify (λ r. record r { notes = set_notes d.notes r.notes; updated_at = f.utc })
    check
    pure (set ++ gone)

  abbrev edited : Record × Result AgentError (List String) → Result AgentError Record
  edited (r, ok changed) = ok r
  edited (r, err e) = err e

  unfoldable pub into_record : RecordDraft → Uuid → Result AgentError Record
  into_record d uuid = elim (parse_kind d.kind) [
    | none ↦ err unknown_kind
    | some kind ↦ edited (apply_to d (Record.new uuid f.utc kind d.title))
  ]
