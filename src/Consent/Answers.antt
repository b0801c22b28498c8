-- ===== src/Consent/Answers.antt =====
-- What a caller gets: an answer is collected once, by its owner, and guesses run out.
use blackbag.Common.{
  ℕ, ◌≡◌, refl, ap, ◌∙◌, ◌⊎◌, inl, inr, Bool, true, false, not, ◌||◌, Option, none, some, List, [],
  ◌∷◌, map, String, arith, Bool-cases, str_eq, str_eq_iff, subst,
}
use blackbag.Common.Assoc.{is_some}
use blackbag.Consent.Ceremony.{Ceremony, is_awaiting, opt_str_eq}
use blackbag.Consent.Desk.{Desk, lapse, retained, expire, collectable, take_first, take_answered}
use blackbag.Consent.Pending.{has_nonce, Distinct, has_nonce-filter, has_nonce-lapse}
use blackbag.Consent.Invariant.{IsValid, expire-IsValid}

take_first-satisfies :
    (p : Ceremony → Bool) (cs : List Ceremony) (c : Ceremony)
    → (take_first p cs).1 ≡ some c
    → p c ≡ true
unfolding take_first
take_first-satisfies p [] c e = cc
take_first-satisfies p (x ∷ cs) c e = elim (Bool-cases (p x)) [
  | inl hit ↦ let same : x ≡ c = cc (rw hit at e) in subst (λ y. p y ≡ true) same hit
  | inr miss ↦ take_first-satisfies p cs c (rw miss at e)
]

opt_str_eq→eq : (a b : Option String) → opt_str_eq a b ≡ true → a ≡ b
opt_str_eq→eq none none h = refl
opt_str_eq→eq (some a) (some b) h = ground (arith, str_eq_iff a b)
opt_str_eq→eq none (some b) h = cc
opt_str_eq→eq (some a) none h = cc

owned :
    (o collector : Option String)
    → (not (is_some o) || opt_str_eq o collector) ≡ true
    → (o ≡ none) ⊎ (o ≡ collector)
owned none collector h = inl refl
owned (some a) collector h = inr (opt_str_eq→eq (some a) collector h)

-- What `take_answered` hands over is the ceremony of that nonce, it is answered, and a ceremony with
-- an owner goes to its owner alone.
pub take_answered_lem :
    (d : Desk) (nonce : String) (collector : Option String) (now : ℕ) (c : Ceremony)
    → (take_answered d nonce collector now).1 ≡ some c
    → (c.nonce ≡ nonce) × (is_awaiting c.state ≡ false) × ((c.owner ≡ none) ⊎ (c.owner ≡ collector))
unfolding take_answered collectable
take_answered_lem d nonce collector now c e =
    let hit : collectable nonce collector c ≡ true =
      take_first-satisfies (collectable nonce collector) (expire now d).pending c e in
    ground (arith, hit, str_eq_iff c.nonce nonce, owned c.owner collector)

-- The nonce is gone once its ceremony is taken.
module _ (p : Ceremony → Bool) (k : String)
    (only : (x : Ceremony) → p x ≡ true → str_eq x.nonce k ≡ true) where
  taken-has_nonce :
      (cs : List Ceremony) (c : Ceremony) → (take_first p cs).1 ≡ some c → has_nonce k cs ≡ true
  unfolding take_first
  taken-has_nonce [] c e = cc
  taken-has_nonce (x ∷ cs) c e = elim (Bool-cases (p x)) [
    | inl hit ↦ rw (only x hit) refl
    | inr miss ↦ ground (arith, taken-has_nonce cs c (rw miss at e))
  ]

  has_nonce-taken :
      (cs : List Ceremony) (c : Ceremony)
      → Distinct cs
      → (take_first p cs).1 ≡ some c
      → has_nonce k (take_first p cs).0 ≡ false
  unfolding take_first
  has_nonce-taken [] c h e = cc
  has_nonce-taken (x ∷ cs) c (hx, hcs) e = elim (Bool-cases (p x)) [
    | inl hit ↦
        rw hit (subst (λ n. has_nonce n cs ≡ false) ((str_eq_iff x.nonce k).0 (only x hit)) hx)
    | inr miss ↦
        let e' : (take_first p cs).1 ≡ some c = rw miss at e in
        let other : str_eq x.nonce k ≡ false = not_same x cs hx (taken-has_nonce cs c e') in
        rw miss (rw (other, has_nonce-taken cs c hcs e') refl)
  ]
    where
      not_same :
          (y : Ceremony) (ys : List Ceremony)
          → has_nonce y.nonce ys ≡ false
          → has_nonce k ys ≡ true
          → str_eq y.nonce k ≡ false
      not_same y ys free used = elim (Bool-cases (str_eq y.nonce k)) [
        | inl same ↦ cc (free, used, ap (λ n. has_nonce n ys) ((str_eq_iff y.nonce k).0 same))
        | inr other ↦ other
      ]

collectable-nonce :
    (nonce : String) (collector : Option String) (c : Ceremony)
    → collectable nonce collector c ≡ true
    → str_eq c.nonce nonce ≡ true
unfolding collectable
collectable-nonce nonce collector c h = ground arith

take_first-absent :
    (nonce : String) (collector : Option String) (cs : List Ceremony)
    → has_nonce nonce cs ≡ false
    → (take_first (collectable nonce collector) cs).1 ≡ none
unfolding take_first collectable
take_first-absent nonce collector [] h = refl
take_first-absent nonce collector (c ∷ cs) h = ground (arith, take_first-absent nonce collector cs)

has_nonce-expire :
    (now : ℕ) (k : String) (d : Desk)
    → has_nonce k d.pending ≡ false
    → has_nonce k (expire now d).pending ≡ false
unfolding expire
has_nonce-expire now k d h =
    has_nonce-filter (retained now) k (map (lapse now) d.pending)
      (has_nonce-lapse now k d.pending ∙ h)

-- An answer is collected once: whoever asks again, at whatever time, gets nothing.
pub take_answered_once :
    (d : Desk) (nonce : String) (first second : Option String) (now later : ℕ) (c : Ceremony)
    → IsValid d
    → (take_answered d nonce first now).1 ≡ some c
    → (take_answered (take_answered d nonce first now).0 nonce second later).1 ≡ none
unfolding take_answered
take_answered_once d nonce first second now later c h e = take_first-absent nonce second _ (
    has_nonce-expire later nonce (take_answered d nonce first now).0 (
      has_nonce-taken (collectable nonce first) nonce (collectable-nonce nonce first)
        (expire now d).pending c (expire-IsValid now d h).distinct e))
