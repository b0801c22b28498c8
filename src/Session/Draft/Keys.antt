-- ===== src/Session/Draft/Keys.antt =====
-- A draft does not take a passkey's key material away.
use blackbag.Common.{
  ◌≡◌, refl, sym, subst, ◌∙◌, inl, inr, Bool, true, false, ◌||◌, Option, none, some, List, [], ◌∷◌,
  ◌++◌, map, String, arith, str_eq, str_eq_iff, Bool-cases, any, filter, find,
}
use blackbag.Common.Bytes.{Bytes}
use blackbag.Common.Assoc.{is_some}
use blackbag.Common.Result.{Result, ok, err}
use blackbag.Session.Messages.{RecordDraft, TotpDraft}
use blackbag.Record.{
  parse_kind, Record, Field, Kind, passkey, field, secret_of, put_field, set_field,
}
use blackbag.Session.Keeps.{
  After, Triple, Keeps, Triple-gets, Triple-bind, Triple-pure, Triple-fail, Triple-if,
}
use blackbag.Session.State.{AgentError, Forms}
use blackbag.Session.Step.{modify, lift}
use blackbag.Session.Draft.{
  check, totp_field, configured, need_kind, set_notes, is_kept, kept, set_secrets, prune, set_totp,
  apply_to, private_key_field, prf_seed_field,
}

put_field-other :
    (fs : List Field) (name other : String) (secret : Bytes)
    → str_eq name other ≡ false
    → secret_of (find (λ f. str_eq f.name other) (put_field fs name secret))
      ≡ secret_of (find (λ f. str_eq f.name other) fs)
unfolding put_field
put_field-other [] name other secret h = rw h refl
put_field-other (f ∷ fs) name other secret h = elim (Bool-cases (str_eq f.name name)) [
  | inl e ↦
      let same : f.name ≡ name = (str_eq_iff f.name name).0 e in
      let differs : str_eq f.name other ≡ false =
        subst (λ n. str_eq n other ≡ false) (sym same) h in
      rw (e, differs) refl
  | inr e ↦ elim (Bool-cases (str_eq f.name other)) [
    | inl o ↦ rw (e, o) refl
    | inr o ↦ rw (e, o) (put_field-other fs name other secret h)
  ]
]

filter-field :
    (keep : String → Bool) (fs : List Field) (name : String)
    → keep name ≡ true
    → secret_of (find (λ f. str_eq f.name name) (filter (λ f. keep f.name) fs))
      ≡ secret_of (find (λ f. str_eq f.name name) fs)
filter-field keep [] name h = refl
filter-field keep (f ∷ fs) name h = elim (Bool-cases (str_eq f.name name)) [
  | inl e ↦
      let stays : keep f.name ≡ true =
        subst (λ n. keep n ≡ true) (sym ((str_eq_iff f.name name).0 e)) h in
      rw (stays, e) refl
  | inr e ↦ elim (Bool-cases (keep f.name)) [
    | inl k ↦ rw (k, e) (filter-field keep fs name h)
    | inr k ↦ rw (k, e) (filter-field keep fs name h)
  ]
]

abbrev pub is_key_field : String → Bool
is_key_field name = str_eq private_key_field name || str_eq prf_seed_field name

any-right : (p : String → Bool) (xs ys : List String) → any p ys ≡ true → any p (xs ++ ys) ≡ true
any-right p [] ys h = h
any-right p (x ∷ xs) ys h = ground (arith, any-right p xs ys h)

key_kept :
    (d : RecordDraft) (name : String) → is_key_field name ≡ true → is_kept d passkey name ≡ true
unfolding is_kept kept
key_kept d name h =
    any-right _ (map (λ (n, v). n) d.secrets) _
      (any-right _ (totp_field (is_some d.totp)) _ (ground arith))

totp-differs : (name : String) → is_key_field name ≡ true → str_eq "totp" name ≡ false
totp-differs name h = elim (Bool-cases (str_eq private_key_field name)) [
  | inl e ↦ subst (λ n. str_eq "totp" n ≡ false) ((str_eq_iff private_key_field name).0 e) refl
  | inr e ↦
      let seed : str_eq prf_seed_field name ≡ true = ground (arith, e) in
      subst (λ n. str_eq "totp" n ≡ false) ((str_eq_iff prf_seed_field name).0 seed) refl
]

-- No secret of the draft has this name.
abbrev pub IsUnnamed : String → List (String × String) → Type 0
IsUnnamed name [] = Unit {0}
IsUnnamed name ((n, v) ∷ rest) = (str_eq n name ≡ false) × IsUnnamed name rest

module _ (f : Forms) (name : String) (value : Option Bytes) where
  -- The record has that value under that name.
  Has : Record → Type 0
  Has r = field r name ≡ value

  IsPasskey : Record → Type 0
  IsPasskey r = Has r × (r.kind ≡ passkey)

  After-both :
      {A : Type 0} (P : Record → Type 0) (r : Record) (x : Result AgentError A)
      → (P r → Has r)
      → P r
      → After Has (λ a. P) (r, x)
  After-both P r (ok a) h p = p
  After-both P r (err e) h p = h p

  lift-IsPasskey : {A : Type 0} (x : Result AgentError A) → Keeps Has IsPasskey (lift x)
  unfolding lift IsPasskey
  lift-IsPasskey x = record { at = λ r p. After-both IsPasskey r x (λ q. q.0) p }

  set_field-Has :
      (r : Record) (n : String) (secret : Bytes)
      → str_eq n name ≡ false
      → Has r
      → Has (set_field f.utc r n secret)
  unfolding Has field set_field
  set_field-Has r n secret h v = put_field-other r.fields n name secret h ∙ v

  modify-IsPasskey :
      (g : Record → Record)
      → ((r : Record) → IsPasskey r → IsPasskey (g r))
      → Keeps Has IsPasskey (modify {E = AgentError} g)
  unfolding modify
  modify-IsPasskey g h = record { at = h }

  set_secrets-IsPasskey :
      (secrets : List (String × String))
      → IsUnnamed name secrets
      → Keeps Has IsPasskey (set_secrets f secrets)
  unfolding set_secrets IsPasskey set_field
  set_secrets-IsPasskey [] h = Triple-pure _ λ r p. p
  set_secrets-IsPasskey ((n, v) ∷ rest) (h, hs) =
      let others = set_secrets-IsPasskey rest hs in
      Triple-if _ _ _ (Triple-fail _ λ r p. p.0) (
        Triple-if _ _ _ others (
          Triple-bind _ _ (modify-IsPasskey _ λ r p. (set_field-Has r n (f.utf8 v) h p.0, p.1))
            λ u. Triple-bind _ _ others λ changed. Triple-pure _ λ r p. p))

  module _ (d : RecordDraft) (is_key : is_key_field name ≡ true) where
    prune-IsPasskey : Keeps Has IsPasskey (prune f d)
    unfolding prune IsPasskey Has field
    prune-IsPasskey = record {
      at = λ r (v, k). (
        filter-field (is_kept d r.kind) r.fields name
              (subst (λ z. is_kept d z name ≡ true) (sym k) (key_kept d name is_key))
            ∙ v,
        k,
      );
    }

    set_totp-IsPasskey : (t : Option TotpDraft) → Keeps Has IsPasskey (set_totp f t)
    unfolding set_totp IsPasskey Has field set_field
    set_totp-IsPasskey none = modify-IsPasskey _ λ r p. p
    set_totp-IsPasskey (some t) =
        Triple-bind _ _ (Triple-gets {Q = λ x. IsPasskey} _ λ r p. p) λ seed.
          Triple-bind _ _ (lift-IsPasskey seed) λ got.
            modify-IsPasskey
              (λ r. record (set_field f.utc r "totp" got.0) { totp = some (configured f t got.1) })
              λ r p. (set_field-Has r "totp" got.0 (totp-differs name is_key) p.0, p.1)

    check-IsPasskey : Keeps Has IsPasskey (check f)
    unfolding check IsPasskey
    check-IsPasskey = record { at = λ r p. After-both IsPasskey r _ (λ q. q.0) p }

    -- After the kind is set, the record is a passkey's.
    retyped :
        (kind : Kind)
        → Triple Has
            (λ r. Has r × (kind ≡ passkey))
            (modify {E = AgentError} (λ r. record r {
              kind = kind;
              title = d.title;
              tags = d.tags;
              attributes = d.attributes;
            }))
            (λ u. IsPasskey)
    unfolding modify IsPasskey Has field
    retyped kind = record { at = λ r h. h }

    renoted : Keeps Has IsPasskey (
        modify {E = AgentError}
          (λ r. record r { notes = set_notes f d.notes r.notes; updated_at = f.utc }))
    unfolding modify IsPasskey Has field
    renoted = record { at = λ r h. h }

    apply_to-Has :
        parse_kind d.kind ≡ some passkey
        → IsUnnamed name d.secrets
        → Triple Has Has (apply_to f d) (λ changed. IsPasskey)
    unfolding apply_to need_kind
    apply_to-Has k u = rw k (
        Triple-bind {Q = λ x r. Has r × (x ≡ passkey)} _ _ (Triple-pure passkey λ r v. (v, refl))
          λ kind. Triple-bind _ _ (retyped kind) λ t0.
            Triple-bind _ _ (set_secrets-IsPasskey d.secrets u) λ set.
              Triple-bind _ _ prune-IsPasskey λ gone.
                Triple-bind _ _ (set_totp-IsPasskey d.totp) λ t1.
                  Triple-bind _ _ renoted
                    λ t2. Triple-bind _ _ check-IsPasskey λ t3. Triple-pure _ λ r p. p)

  key_stays :
      (r : Record × Result AgentError (List String)) → After Has (λ x. IsPasskey) r → Has r.0
  unfolding IsPasskey
  key_stays (r, ok x) h = h.0
  key_stays (r, err e) h = h

-- A draft that is applied as a passkey's, and that names neither field of key material among its
-- secrets, leaves both as they were, whether it is accepted or refused; so the private key and the PRF
-- seed of a passkey are not lost by an edit that does not list them.
pub apply_to-keeps_keys :
    (f : Forms) (d : RecordDraft) (r : Record) (name : String)
    → parse_kind d.kind ≡ some passkey
    → is_key_field name ≡ true
    → IsUnnamed name d.secrets
    → field (apply_to f d r).0 name ≡ field r name
unfolding Has
apply_to-keeps_keys f d r name k is_key u =
    key_stays f name (field r name) (apply_to f d r)
      ((apply_to-Has f name (field r name) d is_key k u).at r refl)
