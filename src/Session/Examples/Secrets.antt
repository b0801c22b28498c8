-- ===== src/Session/Examples/Secrets.antt =====
-- Tests of what `Reveal`, `TotpCode`, `unhex` and the drafts of session.rs answer.
use blackbag.Common.{◌≡◌, refl, false, none, some, [], ◌∷◌, arith}
use blackbag.Common.Result.{Result, ok}
use blackbag.Policy as Policy
use blackbag.Record.{Uuid, Record, login, passkey, api, ssh, not_found, VaultError}
use blackbag.Record as Record
use blackbag.Common.Sets.{member, set_insert}
use blackbag.Totp.{Hmac, totp_at, hotp, truncate, zero_padded}
use blackbag.Vault as Vault
use blackbag.Vault.{Vault, Disk, by_passphrase}
use blackbag.Session.Draft.{private_key_field, apply_to}
use blackbag.Session.Draft.Keys.{apply_to-keeps_keys}
use blackbag.Session.Earned.{Earned}
use blackbag.Session.Earned.Items.{IsServed, secret_get-Earned}
use blackbag.Session.Items as Items
use blackbag.Session.Earned.Stored.{IsField, IsCode}
use blackbag.Session.Earned.Secrets.{reveal-Earned, totp_code-Earned}
use blackbag.Session.Hex.{hex, unhex}
use blackbag.Session.Hex.RoundTrip.{unhex-hex}
use blackbag.Session.Life as Life
use blackbag.Session.Life.{client_of, publish}
use blackbag.Session.Step.{◌>>=◌, modify, gets, pure, fail, lift}
use blackbag.Session.Messages.{Response, RecordDraft, secret, totp}
use blackbag.Session.Reveal as Reveal
use blackbag.Session.State.{Agent, AgentError}
use blackbag.Session.Examples.{K, reports, forms, at_time, unlocked, vault, mail}

-- The agent after a secret, or a code, went out.
abbrev after_reveal : Agent K × Result AgentError (Response reports)
after_reveal = Reveal.reveal reports (at_time 5) "mail" "password" none (some "open") unlocked

reveal-Earned_example :
    (uuid : Uuid) × ((at_time 5).parse_uuid "mail" ≡ some uuid)
    × Earned
        (at_time 5)
        unlocked
        (client_of (at_time 5) unlocked.peer)
        uuid
        Policy.reveal
        (some "open")
    × IsField (at_time 5) unlocked reports "password" uuid (secret "hi")
unfolding Reveal.reveal Reveal.totp_code ◌>>=◌ pure fail lift Life.opened Life.expire_if_idle
    Life.lock_and_publish Life.expiry Life.resume Life.picked_up Vault.get Record.new gets
    Reveal.reveal_allowed Reveal.code_allowed Policy.consider member Reveal.ask_proof Life.proves
    set_insert Policy.as_str Policy.for_peer Policy.grant Policy.grant_eq Record.field client_of
    Life.record_audit Reveal.conclude Reveal.hand_out Reveal.hand_out_code Reveal.totp_now totp_at
    hotp truncate zero_padded modify
reveal-Earned_example =
    reveal-Earned reports (at_time 5) unlocked "mail" "password" none (some "open") after_reveal.0
      (secret "hi") refl refl

abbrev hmac : Hmac
hmac = λ alg key message. key

abbrev after_code : Agent K × Result AgentError (Response reports)
after_code = Reveal.totp_code reports (at_time 5) hmac "mail" none (some "open") unlocked

totp_code-Earned_example :
    (uuid : Uuid) × ((at_time 5).parse_uuid "mail" ≡ some uuid)
    × Earned
        (at_time 5)
        unlocked
        (client_of (at_time 5) unlocked.peer)
        uuid
        Policy.reveal
        (some "open")
    × IsCode (at_time 5) unlocked reports hmac uuid (totp (48 ∷ 48 ∷ 48 ∷ 48 ∷ 48 ∷ 48 ∷ []) 30 30)
unfolding Reveal.reveal Reveal.totp_code ◌>>=◌ pure fail lift Life.opened Life.expire_if_idle
    Life.lock_and_publish Life.expiry Life.resume Life.picked_up Vault.get Record.new gets
    Reveal.reveal_allowed Reveal.code_allowed Policy.consider member Reveal.ask_proof Life.proves
    set_insert Policy.as_str Policy.for_peer Policy.grant Policy.grant_eq Record.field client_of
    Life.record_audit Reveal.conclude Reveal.hand_out Reveal.hand_out_code Reveal.totp_now totp_at
    hotp truncate zero_padded modify
totp_code-Earned_example =
    totp_code-Earned reports (at_time 5) unlocked hmac "mail" none (some "open") after_code.0
      (totp (48 ∷ 48 ∷ 48 ∷ 48 ∷ 48 ∷ 48 ∷ []) 30 30) refl refl

unhex-hex_example : unhex (hex (0 ∷ 171 ∷ 255 ∷ [])) ≡ ok (0 ∷ 171 ∷ 255 ∷ [])
unhex-hex_example = unhex-hex (0 ∷ 171 ∷ 255 ∷ []) (omega arith, (omega arith, (omega arith, tt)))

abbrev key_record : Record
key_record = record (Record.new "key" 0 passkey (some "Site")) {
  fields = record { name = "private_key"; secret = 1 ∷ 2 ∷ [] } ∷ [];
}

abbrev renamed : RecordDraft
renamed = record {
  kind = "Passkey";
  title = some "Renamed";
  tags = [];
  attributes = [];
  secrets = ("pin", "1234") ∷ [];
  notes = none;
  totp = none;
}

apply_to-keeps_keys_example :
    Record.field (apply_to forms renamed key_record).0 private_key_field
    ≡ Record.field key_record private_key_field
unfolding Record.parse_kind Record.kind_str
apply_to-keeps_keys_example =
    apply_to-keeps_keys forms renamed key_record private_key_field refl refl (refl, tt)

-- The same agent with an item of the Secret Service beside, which that service may have.
abbrev with_item : Agent K
with_item = record unlocked {
  opened_vault = some (record {
    vault = record vault {
      records =
          record (Record.new "item" 0 api none) {
            tags = Items.secret_service_tag ∷ [];
            fields = record { name = "secret"; secret = 1 ∷ [] } ∷ [];
          }
          ∷ mail
          ∷ [];
    };
    exposure = [];
    deadline = 10;
    ceiling = 20;
    ceiling_wall = 20;
    method = by_passphrase;
  });
  approvals = record {
    granted =
        record { client = "secret-service"; item = "item"; capability = Policy.secret_service }
        ∷ [];
    lockdown = false;
    trusted = [];
  };
}

abbrev after_get : Agent K × Result AgentError (Response reports)
after_get = Items.secret_get reports (at_time 5) "item" none with_item

secret_get-Earned_example :
    (uuid : Uuid) × ((at_time 5).parse_uuid "item" ≡ some uuid)
    × IsServed reports (at_time 5) with_item uuid
    × Earned (at_time 5) with_item Items.client "item" Policy.secret_service none
    × IsField (at_time 5) with_item reports Items.secret_service_field uuid (secret "hi")
unfolding Items.secret_get Items.need_item Items.settle_item Items.hand_out_item ◌>>=◌ pure fail
    lift Life.opened Life.expire_if_idle Life.lock_and_publish Life.expiry Life.resume
    Life.picked_up Vault.get Record.new gets Policy.consider member Policy.as_str Policy.key_of
    Policy.grant_eq Record.field Life.record_audit modify
secret_get-Earned_example =
    secret_get-Earned reports (at_time 5) with_item "item" none after_get.0 "hi" refl
