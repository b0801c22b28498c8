-- ===== src/Vault.antt =====
-- crates/blackbag-core/src/vault.rs: an open vault. What a file holds and how it is opened, sealed and
-- written is behind the record `Disk`, which is the file system as one request finds it.
use blackbag.Common.{
  ℕ, ◌+◌, Bool, false, not, Option, none, some, List, [], ◌∷◌, ◌++◌, map, String, leb,
  if◌then◌else◌, str_eq, length, filter, find,
}
use blackbag.Common.Bytes.{Bytes, bytes_eq}
use blackbag.Common.Text.{to_ascii_lowercase, trim_dots}
use blackbag.Common.Result.{Result, ok, ensure, ok_or, and_then, ◌>>=◌, ◌>>◌}
use blackbag.Record.{
  Kind, kind_eq, all_kinds, Uuid, PasskeyConfig, Record, max_records, VaultError, vault_full,
  not_found, validate,
}

pub data UnlockMethod : Type 0 where
  by_passphrase by_recovery_key : UnlockMethod

-- An open vault: its records and the parts of the header that the agent reads, with what opens and
-- seals the file (the data key, the recipients, the stamp of the file), which is `key`.
pub record Vault (K : Type 0) : Type 0 where
  pub records : List Record
  pub epoch : ℕ
  pub vault_id : Uuid
  pub rollback_suspected : Bool
  pub unlocked_by : UnlockMethod
  pub key : K

-- `unlock`, `refresh`, `save`, `passphrase_matches` and `open_lock`.
pub record Disk (K : Type 0) : Type 0 where
  pub unlock : String → Result VaultError (Vault K)
  pub refresh : Vault K → Result VaultError (Vault K)
  -- the handle is left changed when the file could not be written
  pub save : Vault K → Vault K × Result VaultError (Unit {0})
  pub passphrase_matches : Vault K → String → Bool
  pub open_lock : Result VaultError (Unit {0})

abbrev pub has_rp : String → Option PasskeyConfig → Bool
has_rp want none = false
has_rp want (some p) = str_eq p.rp_id want

abbrev pub has_credential : Bytes → Option PasskeyConfig → Bool
has_credential want none = false
has_credential want (some p) = bytes_eq p.credential_id want

-- The first record of that id goes, or nothing does.
unfoldable pub remove_first : Uuid → List Record → Option (List Record)
remove_first uuid [] = none
remove_first uuid (r ∷ rs) =
    let rest = remove_first uuid rs in
    if str_eq r.id uuid then some rs else and_then rest (λ rs'. some (r ∷ rs'))

-- `get_mut` with the change of the record found.
unfoldable pub put_first : Record → List Record → List Record
put_first fresh [] = []
put_first fresh (r ∷ rs) =
    let rest = put_first fresh rs in if str_eq r.id fresh.id then fresh ∷ rs else r ∷ rest

module _ {K : Type 0} where
  unfoldable pub get : Vault K → Uuid → Option Record
  get v uuid = find (λ r. str_eq r.id uuid) v.records

  unfoldable pub passkeys_for_rp : Vault K → String → List Record
  passkeys_for_rp v rp_id =
      filter (λ r. has_rp (to_ascii_lowercase (trim_dots rp_id)) r.passkey) v.records

  unfoldable pub passkey_by_credential_id : Vault K → Bytes → Option Record
  passkey_by_credential_id v want = find (λ r. has_credential want r.passkey) v.records

  unfoldable pub next_epoch : Vault K → ℕ
  next_epoch v = v.epoch + 1

  unfoldable pub add_record : Vault K → Record → Result VaultError (Vault K)
  add_record v r = do
    validate r
    ensure (not (leb max_records (length v.records))) vault_full
    ok (record v { records = v.records ++ record r { created_epoch = some (v.epoch + 1) } ∷ [] })

  unfoldable pub remove_record : Vault K → Uuid → Result VaultError (Vault K)
  remove_record v uuid =
      ok_or (remove_first uuid v.records) not_found >>= λ rs. ok (record v { records = rs })

  unfoldable pub counts_by_kind : Vault K → List (Kind × ℕ)
  counts_by_kind v = map (λ k. (k, length (filter (λ r. kind_eq r.kind k) v.records))) all_kinds
