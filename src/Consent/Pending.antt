-- ===== src/Consent/Pending.antt =====
-- Lists of ceremonies: what the loops of the desk keep of every ceremony, and of their nonces.
use blackbag.Common.{
  ℕ, ◌≤◌, ◌≡◌, refl, ◌∙◌, inl, inr, Bool, true, false, List, [], ◌∷◌, ◌++◌, map, String, arith,
  Bool-cases, str_eq, str_eq_iff, length, any, filter, All,
}
use blackbag.Common.Result.{Result}
use blackbag.Consent.Ceremony.{Ceremony}
use blackbag.Consent.Desk.{DeskError, lapse, on_first, take_first}

abbrev pub has_nonce : String → List Ceremony → Bool
has_nonce nonce cs = any (λ c. str_eq c.nonce nonce) cs

abbrev pub Distinct : List Ceremony → Type 0
Distinct [] = Unit {0}
Distinct (c ∷ cs) = (has_nonce c.nonce cs ≡ false) × Distinct cs

pub All-map {ℓ} :
    (P : Ceremony → Type ℓ) (f : Ceremony → Ceremony)
    → ((c : Ceremony) → P c → P (f c))
    → (cs : List Ceremony) → All P cs
    → All P (map f cs)
All-map P f keep [] h = h
All-map P f keep (c ∷ cs) (hc, hcs) = (keep c hc, All-map P f keep cs hcs)

nonce-lapse : (now : ℕ) (c : Ceremony) → (lapse now c).nonce ≡ c.nonce
unfolding lapse
nonce-lapse now c = ground arith

pub has_nonce-lapse :
    (now : ℕ) (k : String) (cs : List Ceremony) → has_nonce k (map (lapse now) cs) ≡ has_nonce k cs
has_nonce-lapse now k [] = refl
has_nonce-lapse now k (c ∷ cs) = rw (nonce-lapse now c, has_nonce-lapse now k cs) refl

pub Distinct-lapse : (now : ℕ) (cs : List Ceremony) → Distinct cs → Distinct (map (lapse now) cs)
Distinct-lapse now [] h = h
Distinct-lapse now (c ∷ cs) (hc, hcs) =
    (rw nonce-lapse (has_nonce-lapse now c.nonce cs ∙ hc), Distinct-lapse now cs hcs)

pub has_nonce-filter :
    (p : Ceremony → Bool) (k : String) (cs : List Ceremony)
    → has_nonce k cs ≡ false
    → has_nonce k (filter p cs) ≡ false
has_nonce-filter p k [] h = h
has_nonce-filter p k (c ∷ cs) h = ground (arith, has_nonce-filter p k cs)

pub Distinct-filter :
    (p : Ceremony → Bool) (cs : List Ceremony) → Distinct cs → Distinct (filter p cs)
Distinct-filter p [] h = h
Distinct-filter p (c ∷ cs) (hc, hcs) = elim (Bool-cases (p c)) [
  | inl kept ↦ rw kept (has_nonce-filter p c.nonce cs hc, Distinct-filter p cs hcs)
  | inr dropped ↦ rw dropped (Distinct-filter p cs hcs)
]

pub All-append {ℓ} :
    (P : Ceremony → Type ℓ) (cs : List Ceremony) (c : Ceremony)
    → All P cs
    → P c
    → All P (cs ++ c ∷ [])
All-append P [] c h hc = (hc, tt)
All-append P (x ∷ cs) c (hx, hcs) hc = (hx, All-append P cs c hcs hc)

has_nonce-append :
    (k : String) (cs : List Ceremony) (c : Ceremony)
    → has_nonce k cs ≡ false
    → str_eq c.nonce k ≡ false
    → has_nonce k (cs ++ c ∷ []) ≡ false
has_nonce-append k [] c h e = ground arith
has_nonce-append k (x ∷ cs) c h e = ground (arith, has_nonce-append k cs c)

pub Distinct-append :
    (cs : List Ceremony) (c : Ceremony)
    → Distinct cs
    → has_nonce c.nonce cs ≡ false
    → Distinct (cs ++ c ∷ [])
Distinct-append [] c h e = (refl, tt)
Distinct-append (x ∷ cs) c (hx, hcs) e = (
  has_nonce-append x.nonce cs c hx
      (ground (arith, str_eq_iff x.nonce c.nonce, str_eq_iff c.nonce x.nonce)),
  Distinct-append cs c hcs (ground arith),
)

-- A change of one ceremony that keeps its nonce.
module _ (f : Ceremony → Ceremony × Result DeskError (Unit {0}))
    (keeps : (c : Ceremony) → (f c).0.nonce ≡ c.nonce) where
  has_nonce-on_first :
      (nonce k : String) (cs : List Ceremony) → has_nonce k (on_first nonce f cs).0 ≡ has_nonce k cs
  unfolding on_first
  has_nonce-on_first nonce k [] = refl
  has_nonce-on_first nonce k (c ∷ cs) = elim (Bool-cases (str_eq c.nonce nonce)) [
    | inl hit ↦ rw hit (rw (keeps c) refl)
    | inr miss ↦ rw miss (rw (has_nonce-on_first nonce k cs) refl)
  ]

  pub Distinct-on_first :
      (nonce : String) (cs : List Ceremony) → Distinct cs → Distinct (on_first nonce f cs).0
  unfolding on_first
  Distinct-on_first nonce [] h = h
  Distinct-on_first nonce (c ∷ cs) (hc, hcs) = elim (Bool-cases (str_eq c.nonce nonce)) [
    | inl hit ↦ rw hit (rw (keeps c) hc, hcs)
    | inr miss ↦ rw miss (has_nonce-on_first nonce c.nonce cs ∙ hc, Distinct-on_first nonce cs hcs)
  ]

  pub length-on_first :
      (nonce : String) (cs : List Ceremony) → length (on_first nonce f cs).0 ≡ length cs
  unfolding on_first
  length-on_first nonce [] = refl
  length-on_first nonce (c ∷ cs) = ground (arith, length-on_first nonce cs)

  pub All-on_first {ℓ} :
      (P : Ceremony → Type ℓ) (nonce : String)
      → ((c : Ceremony) → str_eq c.nonce nonce ≡ true → P c → P (f c).0)
      → (cs : List Ceremony) → All P cs
      → All P (on_first nonce f cs).0
  unfolding on_first
  All-on_first P nonce keep [] h = h
  All-on_first P nonce keep (c ∷ cs) (hc, hcs) = elim (Bool-cases (str_eq c.nonce nonce)) [
    | inl hit ↦ rw hit (keep c hit hc, hcs)
    | inr miss ↦ rw miss (hc, All-on_first P nonce keep cs hcs)
  ]

has_nonce-take_first :
    (p : Ceremony → Bool) (k : String) (cs : List Ceremony)
    → has_nonce k cs ≡ false
    → has_nonce k (take_first p cs).0 ≡ false
unfolding take_first
has_nonce-take_first p k [] h = h
has_nonce-take_first p k (c ∷ cs) h = ground (arith, has_nonce-take_first p k cs)

pub Distinct-take_first :
    (p : Ceremony → Bool) (cs : List Ceremony) → Distinct cs → Distinct (take_first p cs).0
unfolding take_first
Distinct-take_first p [] h = h
Distinct-take_first p (c ∷ cs) (hc, hcs) = elim (Bool-cases (p c)) [
  | inl hit ↦ rw hit hcs
  | inr miss ↦ rw miss (has_nonce-take_first p c.nonce cs hc, Distinct-take_first p cs hcs)
]

pub All-take_first {ℓ} :
    (P : Ceremony → Type ℓ) (p : Ceremony → Bool) (cs : List Ceremony)
    → All P cs
    → All P (take_first p cs).0
unfolding take_first
All-take_first P p [] h = h
All-take_first P p (c ∷ cs) (hc, hcs) = elim (Bool-cases (p c)) [
  | inl hit ↦ rw hit hcs
  | inr miss ↦ rw miss (hc, All-take_first P p cs hcs)
]

pub length-take_first :
    (p : Ceremony → Bool) (cs : List Ceremony) → length (take_first p cs).0 ≤ length cs
unfolding take_first
length-take_first p [] = omega arith
length-take_first p (c ∷ cs) = ground (arith, length-take_first p cs)
