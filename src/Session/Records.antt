-- ===== src/Session/Records.antt =====
-- The requests on records: `List`, `Detail`, `Add`, `AddMany`, `Update`, `Delete`, `Hygiene` and the
-- two breach requests.
use blackbag.Common.{
  ℕ, ◌+◌, Bool, true, not, ◌&&◌, Option, none, some, List, [], ◌∷◌, map, String, str_eq, any,
  filter,
}
use blackbag.Common.Bytes.{Bytes}
use blackbag.Common.Result.{Result, ok, err}
use blackbag.Record.{Kind, Record, Uuid, VaultError, parse_kind, kind_eq, matches}
use blackbag.Vault.{Vault, get, add_record, remove_record, put_first}
use blackbag.Session.Draft.{apply_to, into_record}
use blackbag.Session.Life.{opened, ok_or_fail, publish, put_open}
use blackbag.Session.Messages.{
  Reports, Response, RecordDraft, view_of, records, detail_of, saved, added, done, hygiene_of,
  candidates_of, breach_of,
}
use blackbag.Session.State.{
  World, Handler, AgentError, ExposureMap, OpenVault, vault_error, invalid_id, record_not_found,
  unknown_kind,
}
use blackbag.Session.Step.{pure, fail, lift, ◌>>=◌, ◌>>◌}

abbrev of_kind : Option Kind → Record → Bool
of_kind none r = true
of_kind (some k) r = kind_eq r.kind k

abbrev is_match : Option String → Record → Bool
is_match none r = true
is_match (some q) r = matches r q

module _ {K : Type 0} where
  -- An error of the vault in a handler.
  unfoldable pub from_vault : {A : Type 0} → Result VaultError A → Handler K A
  from_vault (ok x) = pure x
  from_vault (err e) = fail (vault_error e)

  -- A change of the open vault that stays although the request fails.
  unfoldable pub put_vault : OpenVault K → Vault K → Handler K (OpenVault K)
  put_vault o v a =
      let o' : OpenVault K = record o { vault = v } in (record a { opened_vault = some o' }, ok o')

  unfoldable pub written :
      OpenVault K → Vault K × Result VaultError (Unit {0}) → Handler K (Unit {0})
  written o (v, r) = put_vault o v >> from_vault r

  -- `open.vault.save()?`
  unfoldable pub save : World K → OpenVault K → Handler K (Unit {0})
  save w o = written o (w.disk.save o.vault)

  -- `open.vault.add_record(record)?`
  unfoldable pub push_record : OpenVault K → Record → Handler K (OpenVault K)
  push_record o r = do v ← from_vault (add_record o.vault r); put_vault o v

  -- The loop of `AddMany`: how many were added.
  unfoldable pub push_all : OpenVault K → List Record → Handler K (OpenVault K × ℕ)
  push_all o [] = pure (o, 0)
  push_all o (r ∷ rs) = do o' ← push_record o r; (o'', n) ← push_all o' rs; pure (o'', n + 1)

-- The verdict on a value that was replaced goes with it.
abbrev pub forget : Uuid → List String → ExposureMap → ExposureMap
forget uuid names m =
    filter (λ (k, n). not (any (λ name. str_eq k.0 uuid && str_eq k.1 name) names)) m

abbrev pub forget_record : Uuid → ExposureMap → ExposureMap
forget_record uuid m = filter (λ (k, n). not (str_eq k.0 uuid)) m

abbrev cons_record : Record → Result AgentError (List Record) → Result AgentError (List Record)
cons_record r (ok rs) = ok (r ∷ rs)
cons_record r (err e) = err e

module _ {K : Type 0} (R : Reports) (w : World K) where
  abbrev pub known_kind : Option Kind → Handler K (Option Kind)
  known_kind none = fail unknown_kind
  known_kind (some k) = pure (some k)

  unfoldable pub need_kind : Option String → Handler K (Option Kind)
  need_kind none = pure none
  need_kind (some name) = known_kind (parse_kind name)

  unfoldable pub list_records :
      (Bytes → String → String) → Option String → Option String → Handler K (Response R)
  list_records handle kind query = do
    k ← need_kind kind
    o ← opened w
    pure (
        records
          (map (view_of handle) (filter (is_match query) (filter (of_kind k) o.vault.records))))

  unfoldable pub detail : (Bytes → String → String) → String → Handler K (Response R)
  detail handle id = do
    uuid ← ok_or_fail (w.parse_uuid id) invalid_id
    o ← opened w
    r ← ok_or_fail (get o.vault uuid) record_not_found
    pure (detail_of (view_of handle r))

  unfoldable pub add : RecordDraft → Handler K (Response R)
  add draft = do
    r ← lift (into_record w.forms draft (w.new_uuid 0))
    from_vault w.disk.open_lock
    o ← opened w
    o' ← push_record o r
    save w o'
    publish w
    pure (saved r.id)

  -- Every draft becomes a record before any is added; `n` ids were taken before.
  unfoldable pub into_records : ℕ → List RecordDraft → Result AgentError (List Record)
  into_records n [] = ok []
  into_records n (d ∷ ds) =
      let rest = into_records (n + 1) ds in
      elim (into_record w.forms d (w.new_uuid n)) [ err e ↦ err e | ok r ↦ cons_record r rest ]

  unfoldable pub add_many : List RecordDraft → Handler K (Response R)
  add_many drafts = do
    rs ← lift (into_records 0 drafts)
    from_vault w.disk.open_lock
    o ← opened w
    (o', n) ← push_all o rs
    save w o'
    publish w
    pure (added n)

  -- `apply_to` on the record in place: what it did before an error stays in the open vault.
  unfoldable pub apply_in_place :
      OpenVault K → Record × Result AgentError (List String) → Handler K (OpenVault K × List String)
  apply_in_place o (r, result) = do
    o' ← put_vault o (record (o.vault) { records = put_first r o.vault.records })
    changed ← lift result
    pure (o', changed)

  unfoldable pub update : String → RecordDraft → Handler K (Response R)
  update id draft = do
    uuid ← ok_or_fail (w.parse_uuid id) invalid_id
    from_vault w.disk.open_lock
    o ← opened w
    r ← ok_or_fail (get o.vault uuid) record_not_found
    (o', changed) ← apply_in_place o (apply_to w.forms draft r)
    save w (record o' { exposure = forget uuid changed o'.exposure })
    publish w
    pure (saved uuid)

  unfoldable pub delete : String → Handler K (Response R)
  delete id = do
    uuid ← ok_or_fail (w.parse_uuid id) invalid_id
    from_vault w.disk.open_lock
    o ← opened w
    v ← from_vault (remove_record o.vault uuid)
    save w (record o { vault = v; exposure = forget_record uuid o.exposure })
    publish w
    pure done

  unfoldable pub hygiene : Handler K (Response R)
  hygiene = do o ← opened w; pure (hygiene_of (R.analyse o.vault.records w.forms.utc o.exposure))

  unfoldable pub breach_prefixes : Handler K (Response R)
  breach_prefixes = do o ← opened w; pure (candidates_of (R.candidates o.vault.records))

  unfoldable pub with_map : OpenVault K → R.Breach × ExposureMap → Handler K (Response R)
  with_map o (report, m) = do put_open (record o { exposure = m }); pure (breach_of report)

  unfoldable pub breach_match : List R.Range → Handler K (Response R)
  breach_match ranges = do
    o ← opened w
    with_map o (R.match_ranges o.vault.records ranges o.exposure)
