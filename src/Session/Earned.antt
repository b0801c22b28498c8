-- ===== src/Session/Earned.antt =====
-- What a request is given was granted before, or proven with the passphrase of the vault that is held.
pub mod Stored
pub mod Secrets
pub mod Signatures
pub mod Items
use blackbag.Common.{
  ℕ, ◌+◌, ◌≡◌, ◌≢◌, refl, sym, subst, ◌∙◌, ap, Bool, true, false, Option, none, some, String,
  str_eq, str_eq_iff, Bool-cases, inl, inr, ◌⊎◌, if◌then◌else◌, ◌↔◌,
}
use blackbag.Common.Result.{Result, ok, err}
use blackbag.Policy.{Capability, ClientKey, consider, remembered, must_ask}
use blackbag.Record.{VaultError}
use blackbag.Vault.{Vault, Disk}
use blackbag.Session.Keeps.{
  After, Triple, Triple-bind, Triple-map, Triple-Leaves, Triple-pure, Triple-if, Triple-fail,
  Triple-gets, Leaves,
}
use blackbag.Session.Keeps.Parts.{held, policy, Leaves-publish}
use blackbag.Session.Life.{
  lock_and_publish, expiry, expire_if_idle, opened, resume, picked_up, proves, publish, touch, lock,
}
use blackbag.Session.State.{Agent, AgentError, World, Handler, OpenVault, LockReason}
use blackbag.Session.Step.{gets, ◌>>=◌, ◌>>◌, pure, fail, continue}

-- The vault that was held, or what `refresh` made of it since.
pub data Version {K : Type 0} (d : Disk K) (v : Vault K) : Vault K → Type 0 where
  same : Version d v v
  picked : (u u' : Vault K) → Version d v u → d.refresh u ≡ ok u' → Version d v u'

pub some_injective : {A : Type 0} {x y : A} → some x ≡ some y → x ≡ y
some_injective e = cc

After-any :
    {E S A : Type 0} {F : S → Type 0} (r : S × Result E A)
    → ((s : S) → F s)
    → After F (λ a s. Unit {0}) r
After-any (s, ok a) f = tt
After-any (s, err e) f = f s

module _ {K : Type 0} where
  pub Triple-any :
      {A : Type 0} {P : Agent K → Type 0} (m : Handler K A)
      → Triple (λ a. Unit {0}) P m (λ x a. Unit {0})
  Triple-any m = record { at = λ a h. After-any (m a) λ s. tt }

module _ {K : Type 0} (w : World K) (start : Agent K) where
  -- The vault of an agent is a version of what was held at the start.
  pub Held : Option (OpenVault K) → Type 0
  Held o =
      (x : OpenVault K)
      → o ≡ some x
      → (y : OpenVault K) × (start.opened_vault ≡ some y) × Version w.disk y.vault x.vault

  -- An agent as at the start, for all that a decision reads.
  pub Fixed : Agent K → Type 0
  Fixed a = (a.approvals ≡ start.approvals) × (a.peer ≡ start.peer) × Held a.opened_vault

  abbrev pub Any : Agent K → Type 0
  Any a = Unit {0}

  -- What `opened` needs to find: no vault, or the start's.
  Ready : Agent K → Type 0
  Ready a = (a.opened_vault ≡ none) ⊎ Fixed a

  lock-Ready : (r : LockReason) (a : Agent K) → After Any (λ u. Ready) (publish w (lock r a))
  unfolding Ready lock held
  lock-Ready r a =
      (Triple-map {R = λ u. Ready} _ (λ s h. tt) (λ u s e. inl e)
          (Triple-Leaves held (λ o. o ≡ none) {F = Any} (publish w) (λ s e. tt)
            (Leaves-publish w))).at
        (lock r a) refl

  expire-Ready :
      (r : Option LockReason) (a : Agent K)
      → Fixed a
      → After Any (λ u. Ready) (lock_and_publish w r a)
  unfolding lock_and_publish Ready
  expire-Ready none a h = inr h
  expire-Ready (some r) a h = lock-Ready r a

  pub start-Fixed : Fixed start
  unfolding Fixed Held
  start-Fixed = (refl, refl, λ x e. (x, e, same))

  Held-some :
      (x y : OpenVault K)
      → start.opened_vault ≡ some y
      → Version w.disk y.vault x.vault
      → Held (some x)
  unfolding Held
  Held-some x y e v =
      λ x' i. (y, e, subst (λ z. Version w.disk y.vault z.vault) (some_injective i) v)

  picked_up-Fixed :
      (a : Agent K) (o : OpenVault K) (r : Result VaultError (Vault K))
      → w.disk.refresh o.vault ≡ r
      → Fixed a
      → a.opened_vault ≡ some o
      → After Any (λ x s. Fixed s × Held (some x)) (picked_up w o r a)
  unfolding picked_up Fixed Held
  picked_up-Fixed a o (ok v) e (g, p, h) i =
      let (y, j, u) = h o i in
      let o' : OpenVault K = record o { vault = v; deadline = w.now + a.idle_timeout } in
      let k : Held (some o') = Held-some o' y j (picked o.vault v u e) in ((g, p, k), k)
  picked_up-Fixed a o (err _) e h i =
      (Triple-bind {F = Any} {P = Any} {R = λ x s. Fixed s × Held (some x)} _ _ (Triple-any _)
          λ u. Triple-fail _ λ s p. tt).at
        a tt

  resume-Fixed :
      (a : Agent K) (o : Option (OpenVault K))
      → a.opened_vault ≡ o
      → Ready a
      → After Any (λ x s. Fixed s × Held (some x)) (resume w o a)
  unfolding resume Ready
  resume-Fixed a none i h = tt
  resume-Fixed a (some o) i (inl e) = cc
  resume-Fixed a (some o) i (inr h) = picked_up-Fixed a o (w.disk.refresh o.vault) refl h i

  -- What passes the gate finds a version of the vault that was held, and nothing else changed.
  pub opened-Fixed : Triple Any Fixed (opened w) (λ x a. Fixed a × Held (some x))
  unfolding opened expire_if_idle
  opened-Fixed =
      Triple-bind {Q = λ u. Ready} _ _
        (record { at = λ a h. expire-Ready (expiry w.now a.opened_vault) a h })
        λ u. record { at = λ a h. resume-Fixed a a.opened_vault refl h }

  -- The verdict as the start has it.
  pub verdict-Fixed :
      (client : ClientKey) (item : String) (c : Capability)
      → Triple Any Fixed
          (gets {E = AgentError} (λ a. consider a.approvals client item c))
          (λ v a. Fixed a × (consider start.approvals client item c ≡ v))
  unfolding Fixed
  verdict-Fixed client item c =
      Triple-gets _ λ a h. (h, sym (ap (λ x. consider x client item c) h.0))

  -- A passphrase that is not empty and opens the vault that was held, or a version of it.
  pub Proof : String → Type 0
  Proof pass =
      (pass ≢ "")
      × ((v : Vault K) × ((y : OpenVault K) × (start.opened_vault ≡ some y)
            × Version w.disk y.vault v)
          × (w.disk.passphrase_matches v pass ≡ true))

  pub Found : String → Bool → Agent K → Type 0
  Found pass proven a = Fixed a × (proven ≡ true → Proof pass)

  matches-Found :
      (pass : String) (x : OpenVault K)
      → pass ≢ ""
      → Triple Any
          (λ a. Fixed a × Held (some x))
          (pure {E = AgentError} (w.disk.passphrase_matches x.vault pass))
          (Found pass)
  unfolding Found Proof Held
  matches-Found pass x ne = Triple-pure _ λ a (f, h). (f, λ e. (ne, (x.vault, h x refl, e)))

  pub proves-Found : (pass : String) → Triple Any Fixed (proves w pass) (Found pass)
  unfolding proves Found
  proves-Found pass = elim (Bool-cases (str_eq pass "")) [
    | inl e ↦ rw e (Triple-pure false λ a f. (f, λ e'. cc))
    | inr e ↦ rw e (
        Triple-bind _ _ opened-Fixed
          λ x. matches-Found pass x λ i. let e' = (str_eq_iff pass "").1 i in cc)
  ]

  -- What must be known before a client has something: it was granted, or it is proven now.
  pub Earned : ClientKey → String → Capability → Option String → Type 0
  Earned client item c pass =
      (consider start.approvals client item c ≡ remembered)
      ⊎ ((consider start.approvals client item c ≡ must_ask)
          × ((q : String) × (pass ≡ some q) × Proof q))

module _ {K A : Type 0} {P : Agent K → Type 0} {Q : A → Agent K → Type 0} (m : Handler K A) where
  -- What the state says may be used for the rest.
  pub Triple-known :
      {F : Agent K → Type 0} {X : Type 0}
      → ((s : Agent K) → P s → X)
      → (X → Triple F P m Q)
      → Triple F P m Q
  Triple-known x k = record { at = λ s h. (k (x s h)).at s h }
