-- ===== src/Session/Messages.antt =====
-- What the agent is asked and what it answers (`Request`, `Response`, `RecordDraft`, the views of
-- crates/blackbag-core/src/session.rs). A text in base sixteen is its bytes.
use blackbag.Common.{ℕ, Bool, Option, some, List, map, String, length}
use blackbag.Common.Assoc.{is_some}
use blackbag.Common.Bytes.{Bytes}
use blackbag.Common.Int.{ℤ}
use blackbag.Common.Result.{and_then}
use blackbag.Consent.Ceremony as Ceremony
use blackbag.Consent.Ceremony.{Choice, Summary}
use blackbag.Policy.{Capability, Grant}
use blackbag.Record.{Record, Uuid, kind_str}
use blackbag.Session.State.{LockReason, ExposureMap, SshPendingView, SecretPendingView}

pub record TotpDraft : Type 0 where
  pub secret_base32 : Option String
  pub otpauth_uri : Option String
  pub issuer : Option String
  pub account : Option String
  pub digits : Option ℕ
  pub step : Option ℕ
  pub algorithm : Option String

pub record RecordDraft : Type 0 where
  pub kind : String
  pub title : Option String
  pub tags : List String
  pub attributes : List (String × String)
  pub secrets : List (String × String)
  pub notes : Option String
  pub totp : Option TotpDraft

pub record SecretFieldView : Type 0 where
  pub name : String
  pub handle : String
  pub bytes : ℕ

pub record RecordView : Type 0 where
  pub id : Uuid
  pub kind : String
  pub title : Option String
  pub tags : List String
  pub attributes : List (String × String)
  pub secret_fields : List SecretFieldView
  pub created_at : ℕ
  pub updated_at : ℕ
  pub has_totp : Bool
  pub totp_digits : Option ℕ
  pub totp_step : Option ℕ
  pub totp_issuer : Option String
  pub totp_account : Option String

-- `RecordView::of`; `handle` is the one-way handle of a secret under its field's name.
unfoldable pub view_of : (Bytes → String → String) → Record → RecordView
view_of handle r = record {
  id = r.id;
  kind = kind_str r.kind;
  title = r.title;
  tags = r.tags;
  attributes = r.attributes;
  secret_fields =
      map (λ f. record { name = f.name; handle = handle f.secret f.name; bytes = length f.secret })
        r.fields;
  created_at = r.created_at;
  updated_at = r.updated_at;
  has_totp = is_some r.totp;
  totp_digits = and_then r.totp λ t. some t.digits;
  totp_step = and_then r.totp λ t. some t.step;
  totp_issuer = and_then r.totp λ t. t.issuer;
  totp_account = and_then r.totp λ t. t.account;
}

pub record SshIdentityView : Type 0 where
  pub key_blob : Bytes
  pub comment : String
  pub fingerprint : String

pub record SecretItemView : Type 0 where
  pub item : Uuid
  pub label : String
  pub attributes : List (String × String)
  pub created : ℕ
  pub modified : ℕ

-- The parts of `AgentStatus` that the state decides; times are in nanoseconds.
pub record AgentStatus : Type 0 where
  pub unlocked : Bool
  pub method : Option String
  pub expires_at : Option ℕ
  pub idle_timeout_secs : ℕ
  pub session_ends_at : Option ℕ
  pub max_session_secs : ℕ
  pub last_lock_reason : Option LockReason
  pub pending_passkeys : List Summary
  pub pending_ssh : List SshPendingView
  pub pending_secret : List SecretPendingView
  pub record_count : ℕ
  pub counts_by_kind : List (String × ℕ)
  pub rollback_suspected : Bool

-- The fields of `Request::PasskeyBegin`.
pub record PasskeyBegin : Type 0 where
  pub operation : Ceremony.Operation
  pub client_data_hash : Option Bytes
  pub origin : String
  pub rp_id : String
  pub rp_name : Option String
  pub allow_credentials : List Bytes
  pub challenge : String
  pub cross_origin : Bool
  pub user_handle : Option Bytes
  pub user_name : Option String
  pub user_display_name : Option String
  pub algorithms : List ℤ
  pub want_prf : Bool
  pub prf_first_salt : Option Bytes
  pub prf_second_salt : Option Bytes

-- The fields of `Response::PasskeyResult`.
pub record PasskeyResult : Type 0 where
  pub client_data_json : Bytes
  pub credential_id : Bytes
  pub authenticator_data : Bytes
  pub signature : Bytes
  pub user_handle : Bytes
  pub attestation_object : Option Bytes
  pub public_key_der : Option Bytes
  pub prf_first : Option Bytes
  pub prf_second : Option Bytes

-- What hygiene.rs and breach.rs say about a vault's records.
pub record Reports : Type 1 where
  pub Hygiene : Type 0
  pub Candidate : Type 0
  pub Range : Type 0
  pub Breach : Type 0
  -- `analyse_with_exposure` under the default policy, at a time
  pub analyse : List Record → ℕ → ExposureMap → Hygiene
  pub candidates : List Record → List Candidate
  pub match_ranges : List Record → List Range → ExposureMap → Breach × ExposureMap

module _ (R : Reports) where
  open R use {Hygiene, Candidate, Range, Breach}

  pub data Request : Type 0 where
    status : Request
    unlock : String → Request
    lock touch : Request
    list_records : Option String → Option String → Request
    detail : String → Request
    reveal : String → String → Option Capability → Option String → Request
    add : RecordDraft → Request
    add_many : List RecordDraft → Request
    update : String → RecordDraft → Request
    delete : String → Request
    hygiene : Request
    totp_code : String → Option Capability → Option String → Request
    breach_prefixes : Request
    breach_match : List Range → Request
    passkey_begin : PasskeyBegin → Request
    passkey_answer : String → Bool → Bool → Option Bytes → String → Request
    passkey_collect : String → Request
    passkey_queue approvals : Request
    revoke : String → Option String → Request
    lockdown : Bool → Request
    ssh_generate : String → Request
    ssh_identities : Request
    ssh_sign : Bytes → Bytes → Request
    ssh_approve : String → String → Request
    ssh_dismiss : String → Request
    secret_list : Request
    secret_get : String → Option String → Request
    secret_put : String → String → List (String × String) → String → Request
    secret_delete : String → Request
    secret_approve : String → String → Request
    secret_dismiss : String → Request
    shutdown : Request

  pub data Response : Type 0 where
    status_of : AgentStatus → Response
    records : List RecordView → Response
    detail_of : RecordView → Response
    secret : String → Response
    identities : List SshIdentityView → Response
    secret_items : List SecretItemView → Response
    ssh_signature : Bytes → Response
    totp : Bytes → ℕ → ℕ → Response
    saved : Uuid → Response
    added : ℕ → Response
    hygiene_of : Hygiene → Response
    candidates_of : List Candidate → Response
    breach_of : Breach → Response
    passkey_registered : Bytes → List Choice → Response
    passkey_waiting : Response
    passkey_result : PasskeyResult → Response
    queue_of : List Summary → Response
    approval_required : String → Option String → String → Option String → Response
    approvals_of : List Grant → Bool → Response
    passkey_use_security_key done : Response
