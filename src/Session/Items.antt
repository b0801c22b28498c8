-- ===== src/Session/Items.antt =====
-- The requests of the Secret Service: `SecretList`, `SecretGet`, `SecretPut`, `SecretDelete`,
-- `SecretApprove`, `SecretDismiss`.
use blackbag.Common.{
  Bool, false, Option, none, some, List, [], ◌∷◌, ◌++◌, map, String, if◌then◌else◌, str_eq, any,
  filter,
}
use blackbag.Audit as Audit
use blackbag.Audit.{Surface, Decision}
use blackbag.Policy as Policy
use blackbag.Policy.{ClientKey, Verdict, key_of, consider, remembered, must_ask, blocked}
use blackbag.Record.{Record, Uuid, api, field, set_field}
use blackbag.Record as Record
use blackbag.Vault.{get, remove_record, put_first}
use blackbag.Session.Life.{
  opened, proves, granted, ok_or_fail, audited, program_of, publish, note_secret_pending,
  clear_secret_pending,
}
use blackbag.Session.Messages.{
  Reports, Response, SecretItemView, approval_required, secret, secret_items, saved, done,
}
use blackbag.Session.Records.{from_vault, put_vault, push_record, save}
use blackbag.Session.Reveal.{title_of}
use blackbag.Session.State.{
  World, Handler, OpenVault, invalid_id, no_such_item, record_not_found, no_stored_value, not_utf8,
  lockdown_is_on, not_the_passphrase,
}
use blackbag.Session.Step.{pure, fail, gets, modify, ◌>>=◌, ◌>>◌}

abbrev pub secret_service_tag : String
secret_service_tag = "secret-service"

abbrev pub secret_service_field : String
secret_service_field = "secret"

abbrev pub secret_service_client : String
secret_service_client = "secret-service"

abbrev pub tagged : Record → Bool
tagged r = any (λ t. str_eq t secret_service_tag) r.tags

abbrev pub is_item : Option Record → Bool
is_item none = false
is_item (some r) = tagged r

abbrev pub or_blank : Option String → String
or_blank none = ""
or_blank (some t) = t

unfoldable pub item_view : Record → SecretItemView
item_view r = record {
  item = r.id;
  label = or_blank r.title;
  attributes = r.attributes;
  created = r.created_at;
  modified = r.updated_at;
}

abbrev pub client : ClientKey
client = key_of (some secret_service_client)

module _ {K : Type 0} (R : Reports) (w : World K) where
  abbrev told : Decision → String → Handler K (Unit {0})
  told decision id = audited w Audit.secret_service decision id (some "secret-service")

  -- The record of an item of this service, and of nothing else.
  unfoldable pub need_item : Uuid → Handler K (OpenVault K)
  need_item uuid = do o ← opened w; if is_item (get o.vault uuid) then pure o else fail no_such_item

  unfoldable pub secret_list : Handler K (Response R)
  secret_list = do o ← opened w; pure (secret_items (map item_view (filter tagged o.vault.records)))

  unfoldable pub hand_out_item : String → Uuid → Handler K (Response R)
  hand_out_item id uuid = do
    o ← opened w
    r ← ok_or_fail (get o.vault uuid) record_not_found
    value ← ok_or_fail (field r secret_service_field) no_stored_value
    text ← ok_or_fail (w.from_utf8 value) not_utf8
    told Audit.remembered id
    pure (secret text)

  -- The reply when nobody has said yes yet; the item waits on the deck.
  unfoldable pub ask_item : String → Uuid → Handler K (Response R)
  ask_item id uuid = do
    program ← gets (λ a. program_of w a.peer)
    o ← opened w
    modify (note_secret_pending id (or_blank (title_of (get o.vault uuid))))
    publish w
    pure (approval_required id (title_of (get o.vault uuid)) "secret-service" program)

  -- What a passphrase settles, when one came.
  unfoldable pub prove_item : String → Uuid → Option String → Handler K (Response R)
  prove_item id uuid none = ask_item id uuid
  prove_item id uuid (some pass) = do
    proven ← proves w pass
    if proven
        then (do
          granted client id Policy.secret_service
          told Audit.approved id
          hand_out_item id uuid)
        else (do told Audit.refused id; fail not_the_passphrase)

  unfoldable pub settle_item : Verdict → String → Uuid → Option String → Handler K (Response R)
  settle_item remembered id uuid passphrase = hand_out_item id uuid
  settle_item blocked id uuid passphrase = do told Audit.blocked id; fail lockdown_is_on
  settle_item must_ask id uuid passphrase = prove_item id uuid passphrase

  -- The grant goes by the id as it was written.
  unfoldable pub secret_get : String → Option String → Handler K (Response R)
  secret_get id passphrase = do
    uuid ← ok_or_fail (w.parse_uuid id) invalid_id
    need_item uuid
    verdict ← gets (λ a. consider a.approvals client id Policy.secret_service)
    settle_item verdict id uuid passphrase

  abbrev new_item : String → List (String × String) → String → Record
  new_item label attributes text =
      let r = Record.new (w.new_uuid 0) w.forms.utc api (some label) in
      set_field w.forms.utc
        (record r { tags = r.tags ++ secret_service_tag ∷ []; attributes = attributes })
        secret_service_field (w.forms.utf8 text)

  abbrev tagged_only : Option Record → Option Record
  tagged_only none = none
  tagged_only (some r) = if tagged r then some r else none

  -- A new item, or a change of the one that is named.
  unfoldable pub put_item :
      OpenVault K
      → String
      → String
      → List (String × String)
      → String
      → Handler K (OpenVault K × Uuid)
  put_item o id label attributes text =
      if str_eq id ""
      then (do o' ← push_record o (new_item label attributes text); pure (o', w.new_uuid 0))
      else (do
        uuid ← ok_or_fail (w.parse_uuid id) invalid_id
        r ← ok_or_fail (tagged_only (get o.vault uuid)) no_such_item
        o' ← put_vault o (record (o.vault) {
          records =
              put_first
                (set_field w.forms.utc (record r { title = some label; attributes = attributes })
                  secret_service_field (w.forms.utf8 text))
                o.vault.records;
        })
        pure (o', uuid))

  unfoldable pub secret_put :
      String → String → List (String × String) → String → Handler K (Response R)
  secret_put id label attributes text = do
    from_vault w.disk.open_lock
    o ← opened w
    (o', uuid) ← put_item o id label attributes text
    save w o'
    publish w
    pure (saved uuid)

  unfoldable pub secret_delete : String → Handler K (Response R)
  secret_delete id = do
    uuid ← ok_or_fail (w.parse_uuid id) invalid_id
    from_vault w.disk.open_lock
    o ← need_item uuid
    v ← from_vault (remove_record o.vault uuid)
    save w (record o { vault = v })
    publish w
    pure done

  unfoldable pub secret_approve : String → String → Handler K (Response R)
  secret_approve id passphrase = do
    uuid ← ok_or_fail (w.parse_uuid id) invalid_id
    need_item uuid
    proven ← proves w passphrase
    if proven
        then (do
          granted client id Policy.secret_service
          modify (clear_secret_pending id)
          told Audit.approved id
          publish w
          pure done)
        else (do told Audit.refused id; fail not_the_passphrase)

  unfoldable pub secret_dismiss : String → Handler K (Response R)
  secret_dismiss id = do modify (clear_secret_pending id); publish w; pure done
