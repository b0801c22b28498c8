-- ===== src/Session/Earned/Stored.antt =====
-- `get` of vault.rs and what follows the gate in `Reveal` and `TotpCode` of session.rs: whose field it
-- is that goes out.
use blackbag.Common.{
  ℕ, ◌/◌, ◌≡◌, refl, Bool, true, Bool-cases, inl, inr, Option, none, some, List, [], ◌∷◌, String,
  str_eq, str_eq_iff, find,
}
use blackbag.Common.Bytes.{Bytes}
use blackbag.Common.Result.{Result, ok, err}
use blackbag.Consent.Ceremony.{seconds}
use blackbag.Record.{Record, Uuid, TotpConfig, field}
use blackbag.Totp.{Hmac, TotpError, totp_at}
use blackbag.Vault.{Vault, get}
use blackbag.Session.Earned.{
  Version, same, picked, Held, Any, opened-Fixed, start-Fixed, Triple-known, some_injective,
}
use blackbag.Session.Keeps.{Triple, Triple-bind, Triple-map, Triple-pure, Triple-Leaves, Leaves}
use blackbag.Session.Keeps.Parts.{held}
use blackbag.Session.Life.{opened, ok_or_fail}
use blackbag.Session.Messages.{Reports, Response, secret, totp}
use blackbag.Session.Reveal as Reveal
use blackbag.Session.State.{
  Agent, AgentError, World, Handler, OpenVault, record_not_found, no_such_field, not_utf8,
}
use blackbag.Session.Step.{pure, fail, lift}

find_holds : {A : Type 0} (p : A → Bool) (xs : List A) (x : A) → find p xs ≡ some x → p x ≡ true
find_holds p [] x e = cc
find_holds p (y ∷ ys) x e = elim (Bool-cases (p y)) [
  | inl here ↦
      let this : some y ≡ some x = rw here at e in let eq : y ≡ x = some_injective this in cc
  | inr not_here ↦ find_holds p ys x (rw not_here at e)
]

pub get-id :
    {K : Type 0} (v : Vault K) (uuid : Uuid) (r : Record) → get v uuid ≡ some r → r.id ≡ uuid
unfolding get
get-id v uuid r e = (str_eq_iff r.id uuid).0 (find_holds (λ r. str_eq r.id uuid) v.records r e)

module _ {K : Type 0} (w : World K) (start : Agent K) where
  -- The record that an id names, in the vault that was held or what a refresh made of it.
  unfoldable pub Stored : Uuid → Record → Type 0
  Stored uuid r =
      (v : Vault K) × ((y : OpenVault K) × (start.opened_vault ≡ some y) × Version w.disk y.vault v)
      × (get v uuid ≡ some r)
      × (r.id ≡ uuid)

  abbrev pub HasVault : Agent K → Type 0
  HasVault a = Held w start a.opened_vault

  Version-trans : (u v x : Vault K) → Version w.disk u v → Version w.disk v x → Version w.disk u x
  Version-trans u v _ h same = h
  Version-trans u v _ h (picked a b g e) = picked a b (Version-trans u v a h g) e

  later_Held :
      (a : Agent K) (x : OpenVault K) → HasVault a → Held w a (some x) → Held w start (some x)
  unfolding Held
  later_Held a x h k z e =
      let (y, i, v) = k z e in
      let (y', i', v') = h y i in (y', i', Version-trans y'.vault y.vault z.vault v' v)

  -- The gate, for an agent whose approvals may have grown since the start.
  pub opened-Held : Triple (Any w start) HasVault (opened w) (λ x a. Held w start (some x))
  opened-Held = record {
    at = λ a h.
        (Triple-map (opened w) (λ s u. tt) (λ x s k. later_Held a x h k.1) (opened-Fixed w a)).at a
          (start-Fixed w a);
  }

  pub keeps-Held :
      {A : Type 0} (m : Handler K A)
      → Leaves held m
      → Triple (Any w start) HasVault m (λ x. HasVault)
  unfolding held
  keeps-Held m l = Triple-Leaves held (Held w start) m (λ a h. tt) l

  module _ {P : Agent K → Type 0} where
    pub some-known :
        {A : Type 0} (o : Option A) (e : AgentError)
        → Triple (Any w start) P (ok_or_fail o e) (λ x a. P a × (o ≡ some x))
    unfolding pure fail
    some-known none e = record { at = λ a h. tt }
    some-known (some x) e = record { at = λ a h. (h, refl) }

    lift-known :
        {A : Type 0} (r : Result AgentError A) → Triple (Any w start) P (lift r) (λ x a. r ≡ ok x)
    unfolding lift
    lift-known (ok x) = record { at = λ a h. refl }
    lift-known (err e) = record { at = λ a h. tt }

  module _ (R : Reports) where
    -- The answer is the field of that name of the record that the id names.
    unfoldable pub IsField : String → Uuid → Response R → Type 0
    IsField name uuid x =
        (r : Record) × Stored uuid r
        × (value : Bytes) × (field r name ≡ some value)
        × (text : String) × (w.from_utf8 value ≡ some text)
        × (x ≡ secret text)

    -- The answer is the code, at this second, of the record that the id names.
    pub IsCode : Hmac → Uuid → Response R → Type 0
    IsCode hmac uuid x =
        (r : Record) × Stored uuid r
        × (config : TotpConfig) × (r.totp ≡ some config)
        × (key : Bytes) × (field r "totp" ≡ some key)
        × (code : Bytes) × (ttl : ℕ) × (totp_at hmac key (w.forms.utc / seconds 1) config.step
              config.digits config.algorithm
            ≡ ok (code, ttl))
        × (x ≡ totp code ttl config.step)

    pub hand_out-IsField :
        (uuid : Uuid) (name : String)
        → Triple (Any w start) HasVault (Reveal.hand_out R w uuid name) (λ x a. IsField name uuid x)
    unfolding Reveal.hand_out IsField Stored Held
    hand_out-IsField uuid name = Triple-bind _ _ opened-Held λ o.
        Triple-known _ (λ a h. h o refl)
          λ k. Triple-bind _ _ (some-known (get o.vault uuid) record_not_found) λ r.
            Triple-known _ (λ a h. h.1)
              λ g. Triple-bind _ _ (some-known (field r name) no_such_field) λ value.
                Triple-known _ (λ a h. h.1)
                  λ f. Triple-bind _ _ (some-known (w.from_utf8 value) not_utf8) λ text.
                    Triple-known _ (λ a h. h.1)
                      λ t. Triple-pure _ λ a h.
                        (r, (o.vault, k, g, get-id o.vault uuid r g), value, f, text, t, refl)

    answer_of_code :
        (step : ℕ) (c : Result TotpError (Bytes × ℕ)) (x : Response R)
        → Reveal.totp_response R step c ≡ ok x
        → (code : Bytes) × (ttl : ℕ) × (c ≡ ok (code, ttl)) × (x ≡ totp code ttl step)
    answer_of_code step (ok (code, ttl)) x e =
        let same : x ≡ totp code ttl step = cc in (code, ttl, refl, same)
    answer_of_code step (err _) x e = absurd (cc)

    code_now-IsCode :
        (hmac : Hmac) (uuid : Uuid) (r : Record) (t : Option TotpConfig) (k : Option Bytes)
        (x : Response R)
        → Stored uuid r
        → r.totp ≡ t
        → field r "totp" ≡ k
        → Reveal.code_now R w hmac t k ≡ ok x
        → IsCode hmac uuid x
    unfolding IsCode
    code_now-IsCode hmac uuid r none k x s i j e = absurd (cc)
    code_now-IsCode hmac uuid r (some config) none x s i j e = absurd (cc)
    code_now-IsCode hmac uuid r (some config) (some key) x s i j e =
        let (code, ttl, c, shown) =
          answer_of_code config.step
            (totp_at hmac key (w.forms.utc / seconds 1) config.step config.digits config.algorithm)
            x e in
        (r, s, config, i, key, j, code, ttl, c, shown)

    pub hand_out_code-IsCode :
        (hmac : Hmac) (uuid : Uuid)
        → Triple
            (Any w start)
            HasVault
            (Reveal.hand_out_code R w hmac uuid)
            (λ x a. IsCode hmac uuid x)
    unfolding Reveal.hand_out_code Reveal.totp_now Stored Held
    hand_out_code-IsCode hmac uuid = Triple-bind _ _ opened-Held λ o.
        Triple-known _ (λ a h. h o refl)
          λ k. Triple-bind _ _ (some-known (get o.vault uuid) record_not_found) λ r.
            Triple-known _ (λ a h. h.1)
              λ g.
                Triple-map _ (λ s h. h)
                  (λ x s e.
                    code_now-IsCode hmac uuid r r.totp (field r "totp") x
                      (o.vault, k, g, get-id o.vault uuid r g) refl refl e)
                  (lift-known (Reveal.totp_now R w hmac r))
