-- ===== src/Session/Passkeys.antt =====
-- The requests of passkey ceremonies: `PasskeyBegin`, `PasskeyAnswer`, `PasskeyQueue`,
-- `PasskeyCollect`. What passkey.rs and backup.rs do is behind the record `Authenticator`.
use blackbag.Common.{
  ℕ, Bool, true, false, not, ◌||◌, Option, none, some, List, [], ◌∷◌, String, leb, ◌==◌,
  if◌then◌else◌, str_eq, length, filter,
}
use blackbag.Common.Bytes.{Bytes}
use blackbag.Common.Result.{Result, ok, err}
use blackbag.Common.Text.{trim, to_ascii_lowercase, trim_dots}
use blackbag.Consent.Ceremony.{
  Operation, create, assert, Choice, Ceremony, State, awaiting_human, approved, refused, deferred,
}
use blackbag.Consent.Desk as Desk
use blackbag.Consent.Desk.{Desk, DeskError}
use blackbag.Record.{Record, Uuid, PasskeyConfig, passkey, describe, field, set_field}
use blackbag.Record as Record
use blackbag.Vault.{Vault, passkeys_for_rp, passkey_by_credential_id}
use blackbag.Session.Draft.{private_key_field, prf_seed_field}
use blackbag.Session.Hex.{hex}
use blackbag.Session.Life.{opened, proves, ok_or_fail, program_of, publish}
use blackbag.Session.Messages.{
  Reports, Response, PasskeyBegin, passkey_registered, passkey_waiting, passkey_result,
  passkey_use_security_key, queue_of, done,
}
use blackbag.Session.Records.{push_record, save}
use blackbag.Session.SshKeys.{need_hex}
use blackbag.Session.State.{
  World, Handler, AgentError, desk_error, ceremony_refused, bad_hash_length, hash_with_origin,
  public_suffix, rp_not_valid, no_challenge, no_randomness, no_passkey_waiting, not_answered,
  no_user_handle, passkey_gone, PeerId,
}
use blackbag.Session.Step.{pure, fail, lift, gets, ◌>>=◌, ◌>>◌}
use Prim.Native.String.{◌++◌ as ◌<>◌}

-- A new credential, as passkey.rs hands it over.
pub record Created : Type 0 where
  pub config : PasskeyConfig
  pub private_key : Bytes
  pub seed : Option Bytes
  pub authenticator_data : Bytes
  pub attestation_object : Bytes
  pub public_key_der : Bytes

pub record Asserted : Type 0 where
  pub authenticator_data : Bytes
  pub signature : Bytes
  pub user_handle : Bytes

-- What the agent takes from passkey.rs, backup.rs and serde_json.
pub record Authenticator : Type 1 where
  pub Credential : Type 0
  pub rp_id_is_registrable : String → Bool
  pub rp_id_is_valid_for_origin : String → String → Bool
  -- the ceremony, and the user's handle
  pub create_credential : Ceremony → Bytes → Result AgentError Created
  pub credential_from_record : Record → Result AgentError Credential
  -- what is signed, then UV, then BS
  pub assert_prehashed : Credential → Bytes → Bool → Bool → Result AgentError Asserted
  pub assert_data : Credential → String → Bytes → Bool → Bool → Result AgentError Asserted
  pub prf_evaluate : Bytes → Bytes → Bytes
  -- the newest epoch of a vault of which a backup exists
  pub backed_up_through : Uuid → Option ℕ
  -- a JSON string
  pub quote : String → String

-- `client_data_json`
unfoldable pub client_data_json : (String → String) → String → String → String → Bool → String
client_data_json q kind challenge origin cross_origin =
    "{\"type\":"
    <> q kind
    <> ",\"challenge\":"
    <> q challenge
    <> ",\"origin\":"
    <> q origin
    <> ",\"crossOrigin\":"
    <> (if cross_origin then "true" else "false")
    <> "}"

abbrev belongs_to : String → Record → Bool
belongs_to rp_id r = elim r.passkey [ none ↦ false | some p ↦ str_eq p.rp_id rp_id ]

abbrev cons_some {ℓ} : {A : Type ℓ} → Option A → List A → List A
cons_some none xs = xs
cons_some (some x) xs = x ∷ xs

abbrev choice_of : Record → Option Choice
choice_of r = elim r.passkey [
  | none ↦ none
  | some p ↦ some (record { record_id = r.id; credential_id = p.credential_id; label = describe p })
]

abbrev choices_of : List Record → List Choice
choices_of [] = []
choices_of (r ∷ rs) = cons_some (choice_of r) (choices_of rs)

module _ {K : Type 0} where
  abbrev named_by : Vault K → List Bytes → List Record
  named_by v [] = []
  named_by v (want ∷ wants) =
      let rest = named_by v wants in cons_some (passkey_by_credential_id v want) rest

  -- The records that a request of assertion may use: those of the relying party, or those that
  -- it names and that are of the relying party.
  unfoldable pub usable : Vault K → String → List Bytes → List Record
  usable v rp_id [] = passkeys_for_rp v rp_id
  usable v rp_id (want ∷ wants) = filter (belongs_to rp_id) (named_by v (want ∷ wants))

  unfoldable pub choices_for : Operation → Vault K → String → List Bytes → List Choice
  choices_for create v rp_id allow = []
  choices_for assert v rp_id allow = choices_of (usable v rp_id allow)

  unfoldable pub hex_each : List Bytes → Handler K (List Bytes)
  hex_each [] = pure []
  hex_each (t ∷ ts) = do b ← need_hex t; bs ← hex_each ts; pure (b ∷ bs)

  unfoldable pub hex_option : Option Bytes → Handler K (Option Bytes)
  hex_option none = pure none
  hex_option (some t) = do b ← need_hex t; pure (some b)

  -- What the desk did, in the agent.
  unfoldable pub on_desk : {A : Type 0} → (Desk → Desk × Result DeskError A) → Handler K A
  on_desk f a =
      let (desk, r) = f a.consent in
      (record a { consent = desk }, elim r [ ok x ↦ ok x | err e ↦ err (desk_error e) ])

  unfoldable pub shown_peer : World K → Option PeerId → Option String
  shown_peer w none = none
  shown_peer w (some p) = some (w.show_peer p)

module _ {K : Type 0} (P : Authenticator) (R : Reports) (w : World K) where
  -- The two lanes: bound by a hash, without origin and challenge; or bound by an origin and a
  -- challenge.
  unfoldable pub bind_lane : PasskeyBegin → Option Bytes → Handler K (Unit {0})
  bind_lane b (some hash) =
      if not (length hash == 32)
      then fail bad_hash_length
      else if not (str_eq b.origin "") || not (str_eq b.challenge "")
      then fail hash_with_origin
      else if not (P.rp_id_is_registrable b.rp_id)
      then fail public_suffix
      else pure tt
  bind_lane b none =
      if not (P.rp_id_is_valid_for_origin b.rp_id b.origin)
      then fail rp_not_valid
      else if str_eq (trim b.challenge) ""
      then fail no_challenge
      else pure tt

  unfoldable pub passkey_begin : (Bytes → String) → PasskeyBegin → Handler K (Response R)
  passkey_begin text b = do
    hash ← hex_option b.client_data_hash
    bind_lane b hash
    allow ← hex_each b.allow_credentials
    o ← opened w
    raw ← ok_or_fail w.random no_randomness
    user_handle ← hex_option b.user_handle
    first_salt ← hex_option b.prf_first_salt
    second_salt ← hex_option b.prf_second_salt
    peer ← gets (λ a. a.peer)
    on_desk (λ d.
        Desk.register d
          (record {
            nonce = text (hex raw);
            operation = b.operation;
            origin = b.origin;
            rp_id = to_ascii_lowercase (trim_dots b.rp_id);
            rp_name = b.rp_name;
            choices =
                choices_for b.operation o.vault (to_ascii_lowercase (trim_dots b.rp_id)) allow;
            challenge = b.challenge;
            cross_origin = b.cross_origin;
            client_data_hash = hash;
            user_handle = user_handle;
            user_name = b.user_name;
            user_display_name = b.user_display_name;
            algorithms = b.algorithms;
            want_prf = b.want_prf;
            prf_first_salt = first_salt;
            prf_second_salt = second_salt;
            owner = shown_peer w peer;
            requester = program_of w peer;
            registered_at = w.forms.utc;
            attempts = 0;
            state = awaiting_human;
          })
          w.forms.utc)
    publish w
    pure (
        passkey_registered (hex raw)
          (choices_for b.operation o.vault (to_ascii_lowercase (trim_dots b.rp_id)) allow))

  unfoldable pub passkey_answer :
      String → Bool → Bool → Option Bytes → String → Handler K (Response R)
  passkey_answer nonce approve defer credential_id passphrase =
      if defer
      then (do on_desk (λ d. Desk.defer d nonce w.forms.utc); publish w; pure done)
      else if not approve
      then (do
        on_desk (λ d. Desk.refuse d nonce "you refused this request" w.forms.utc)
        publish w
        pure done)
      else (do
        proof_ok ← proves w passphrase
        chosen ← hex_option credential_id
        on_desk (λ d. Desk.approve d nonce chosen proof_ok w.forms.utc)
        publish w
        pure done)

  unfoldable pub passkey_queue : Handler K (Response R)
  passkey_queue = gets (λ a. queue_of (Desk.summaries a.consent w.forms.utc))

  unfoldable pub take : String → Handler K (Option Ceremony)
  take nonce a =
      let (desk, c) = Desk.take_answered a.consent nonce (shown_peer w a.peer) w.forms.utc in
      (record a { consent = desk }, ok c)

  abbrev username : Option String → List (String × String)
  username none = []
  username (some name) = ("username", name) ∷ []

  abbrev with_seed : Option Bytes → Record → Record
  with_seed none r = r
  with_seed (some seed) r = set_field w.forms.utc r prf_seed_field seed

  unfoldable pub passkey_record : Created → Record
  passkey_record c =
      let r = Record.new (w.new_uuid 0) w.forms.utc passkey (some (describe c.config)) in
      let r' =
        set_field w.forms.utc
          (record r {
            attributes = ("relying_party", c.config.rp_id) ∷ username c.config.user_name;
          })
          private_key_field c.private_key in
      record (with_seed c.seed r') { passkey = some c.config }

  -- The client data that goes back: none when the client hashed its own.
  unfoldable pub client_data : String → Ceremony → Bytes
  client_data kind c = elim c.client_data_hash [
    | some hash ↦ []
    | none ↦ w.forms.utf8 (client_data_json P.quote kind c.challenge c.origin c.cross_origin)
  ]

  unfoldable pub make : Ceremony → Handler K (Response R)
  make c = do
    user_handle ← ok_or_fail c.user_handle no_user_handle
    created ← lift (P.create_credential c user_handle)
    o ← opened w
    o' ← push_record o (passkey_record created)
    save w o'
    publish w
    pure (
        passkey_result (record {
          client_data_json = hex (client_data "webauthn.create" c);
          credential_id = hex created.config.credential_id;
          authenticator_data = hex created.authenticator_data;
          signature = [];
          user_handle = hex created.config.user_handle;
          attestation_object = some (hex created.attestation_object);
          public_key_der = some (hex created.public_key_der);
          prf_first = none;
          prf_second = none;
        }))

  -- Whether a backup that exists holds this credential.
  unfoldable pub is_backed_up : Option ℕ → Option ℕ → Bool
  is_backed_up (some through) (some written_at) = leb written_at through
  is_backed_up _ _ = false

  abbrev evaluate : Option Bytes → Option Bytes → Option Bytes
  evaluate (some seed) (some salt) = some (hex (P.prf_evaluate seed salt))
  evaluate _ _ = none

  unfoldable pub sign_with : Ceremony → P.Credential → Bool → Result AgentError Asserted
  sign_with c credential backed_up = elim c.client_data_hash [
    | some hash ↦ P.assert_prehashed credential hash true backed_up
    | none ↦ P.assert_data credential c.origin (client_data "webauthn.get" c) true backed_up
  ]

  unfoldable pub sign_in : Ceremony → Bytes → Handler K (Response R)
  sign_in c credential_id = do
    o ← opened w
    r ← ok_or_fail (passkey_by_credential_id o.vault credential_id) passkey_gone
    credential ← lift (P.credential_from_record r)
    asserted ← lift (
        sign_with c credential
          (is_backed_up (P.backed_up_through o.vault.vault_id) r.created_epoch))
    pure (
        passkey_result (record {
          client_data_json = hex (client_data "webauthn.get" c);
          credential_id = hex credential_id;
          authenticator_data = hex asserted.authenticator_data;
          signature = hex asserted.signature;
          user_handle = hex asserted.user_handle;
          attestation_object = none;
          public_key_der = none;
          prf_first = evaluate (field r prf_seed_field) c.prf_first_salt;
          prf_second = evaluate (field r prf_seed_field) c.prf_second_salt;
        }))

  unfoldable pub perform : Operation → Ceremony → Bytes → Handler K (Response R)
  perform create c credential_id = make c
  perform assert c credential_id = sign_in c credential_id

  unfoldable pub settle : Ceremony → State → Handler K (Response R)
  settle c (approved credential_id) = perform c.operation c credential_id
  settle c (refused reason) = fail (ceremony_refused reason)
  settle c deferred = pure passkey_use_security_key
  settle c awaiting_human = fail not_answered

  unfoldable pub collected : String → Option Ceremony → Handler K (Response R)
  collected nonce none = do
    waiting ← gets (λ a. Desk.is_waiting a.consent nonce)
    if waiting then pure passkey_waiting else fail no_passkey_waiting
  collected nonce (some c) = do publish w; settle c c.state

  unfoldable pub passkey_collect : String → Handler K (Response R)
  passkey_collect nonce = do c ← take nonce; collected nonce c
