-- ===== src/Consent/Soundness.antt =====
-- What holds of one ceremony on the desk, and that each change of a ceremony keeps it.
use Prim.Native.String.{len}
use blackbag.Common.{
  ℕ, ◌≤◌, ◌<◌, ◌≡◌, ◌≢◌, refl, subst, ◌⊎◌, inl, inr, Bool, true, false, not, ◌&&◌, Option, none,
  some, List, [], ◌∷◌, String, arith, leb, Bool-cases, Option-cases, if◌then◌else◌, str_eq, length,
  any, find,
}
use blackbag.Common.Bytes.{Bytes, bytes_eq, bytes_eq_iff}
use blackbag.Common.Result.{Result, ok, err}
use blackbag.Consent.Ceremony.{
  max_pending, max_proof_attempts, Choice, State, approved, refused, Ceremony, is_awaiting,
  is_assert, is_empty, is_expired,
}
use blackbag.Consent.Desk.{
  DeskError, Desk, lapse, check_register, check_binding, fresh, choose, count_attempt,
  guesses_reason, wrong_proof, approve_chosen, approve_one,
}
use blackbag.Consent.Pending.{has_nonce}

-- The credential is one of the choices; with no choice at all, it is the empty id.
abbrev pub Offers : List Choice → Bytes → Type 0
Offers choices id =
    (any (λ c. bytes_eq c.credential_id id) choices ≡ true) ⊎ ((choices ≡ []) × (id ≡ []))

-- Exactly one binding: a hash of 32 bytes with no origin and no challenge, or both of these.
abbrev pub IsBound : Option Bytes → String → String → Type 0
IsBound (some hash) origin challenge =
    (length hash ≡ 32) × (str_eq origin "" ≡ true) × (str_eq challenge "" ≡ true)
IsBound none origin challenge = (str_eq origin "" ≡ false) × (str_eq challenge "" ≡ false)

pub record IsSound (c : Ceremony) : Type 0 where
  pub nonce_long : leb 32 (len c.nonce) ≡ true
  pub attempts_bound : c.attempts ≤ max_proof_attempts
  pub guesses_left : is_awaiting c.state ≡ true → c.attempts < max_proof_attempts
  pub bound : IsBound c.client_data_hash c.origin c.challenge
  pub assert_offers : is_assert c.operation ≡ true → is_empty c.choices ≡ false
  pub approved_offered : (id : Bytes) → c.state ≡ approved id → Offers c.choices id

pub lapse-IsSound : (now : ℕ) (c : Ceremony) → IsSound c → IsSound (lapse now c)
unfolding lapse
lapse-IsSound now c h = elim (Bool-cases (is_awaiting c.state && is_expired c now)) [
  | inl gone ↦ rw gone (record {
    nonce_long = h.nonce_long;
    attempts_bound = h.attempts_bound;
    guesses_left = λ e. cc;
    bound = h.bound;
    assert_offers = h.assert_offers;
    approved_offered = λ id e. cc;
  })
  | inr still ↦ rw still h
]

check_binding-ok :
    (c : Ceremony) (hash : Option Bytes)
    → check_binding c hash ≡ ok tt
    → IsBound hash c.origin c.challenge
unfolding check_binding
check_binding-ok c none h = ground arith
check_binding-ok c (some hash) h = ground arith

-- What the tests of `register` let through.
pub check_register-ok :
    (d : Desk) (c : Ceremony)
    → check_register d c ≡ ok tt
    → (length d.pending < max_pending)
      × (leb 32 (len c.nonce) ≡ true)
      × (has_nonce c.nonce d.pending ≡ false)
      × (is_assert c.operation ≡ true → is_empty c.choices ≡ false)
      × IsBound c.client_data_hash c.origin c.challenge
unfolding check_register
check_register-ok d c h = ground (arith, check_binding-ok c c.client_data_hash)

pub fresh-IsSound :
    (now : ℕ) (c : Ceremony)
    → leb 32 (len c.nonce) ≡ true
    → (is_assert c.operation ≡ true → is_empty c.choices ≡ false)
    → IsBound c.client_data_hash c.origin c.challenge
    → IsSound (fresh now c)
unfolding fresh
fresh-IsSound now c hn ha hb = record {
  nonce_long = hn;
  attempts_bound = omega arith;
  guesses_left = λ e. omega arith;
  bound = hb;
  assert_offers = ha;
  approved_offered = λ id e. cc;
}

find-Offers :
    (choices : List Choice) (id : Bytes) (c : Choice)
    → find (λ x. bytes_eq x.credential_id id) choices ≡ some c
    → any (λ x. bytes_eq x.credential_id c.credential_id) choices ≡ true
find-Offers [] id c e = cc
find-Offers (x ∷ xs) id c e =
    ground (arith, bytes_eq_iff x.credential_id c.credential_id, find-Offers xs id c)

choose-Offers :
    (choices : List Choice) (wanted : Option Bytes) (id : Bytes)
    → choose choices wanted ≡ ok id
    → Offers choices id
unfolding choose
choose-Offers choices (some w) id e =
    elim (Option-cases (find (λ x. bytes_eq x.credential_id w) choices)) [
      | inl nothing ↦ cc (rw (nothing, choose) at e)
      | inr (c, hit) ↦ inl (ground (arith, find-Offers choices w c hit, rw (hit, choose) at e))
    ]
choose-Offers [] none id e = ground arith
choose-Offers (only ∷ []) none id e = ground (arith, bytes_eq_iff only.credential_id id)
choose-Offers (x ∷ y ∷ more) none id e = cc

chosen-IsSound :
    (c : Ceremony) (id : Bytes)
    → IsSound c
    → Offers c.choices id
    → IsSound (record c { state = approved id })
chosen-IsSound c id h o = record {
  nonce_long = h.nonce_long;
  attempts_bound = h.attempts_bound;
  guesses_left = λ e. cc;
  bound = h.bound;
  assert_offers = h.assert_offers;
  approved_offered = λ i e. let q : id ≡ i = cc in subst (λ x. Offers c.choices x) q o;
}

-- A ceremony that is answered in any other way than by an approval.
pub answered-IsSound :
    (c : Ceremony) (n : ℕ) (state : State)
    → IsSound c
    → n ≤ max_proof_attempts
    → is_awaiting state ≡ false
    → ((id : Bytes) → state ≢ approved id)
    → IsSound (record c { attempts = n; state = state })
answered-IsSound c n state h hn answered other = record {
  nonce_long = h.nonce_long;
  attempts_bound = hn;
  guesses_left = λ e. cc;
  bound = h.bound;
  assert_offers = h.assert_offers;
  approved_offered = λ id e. absurd (other id e);
}

counted-IsSound :
    (c : Ceremony)
    → IsSound c
    → is_awaiting c.state ≡ true
    → leb max_proof_attempts (count_attempt c.attempts) ≡ false
    → IsSound (record c { attempts = count_attempt c.attempts })
counted-IsSound c h awaits few = record {
  nonce_long = h.nonce_long;
  attempts_bound = ground arith;
  guesses_left = λ e. ground arith;
  bound = h.bound;
  assert_offers = h.assert_offers;
  approved_offered = λ id e. h.approved_offered id e;
}

wrong_proof-IsSound :
    (c : Ceremony) → IsSound c → is_awaiting c.state ≡ true → IsSound (wrong_proof c).0
unfolding wrong_proof
wrong_proof-IsSound c h awaits =
    elim (Bool-cases (leb max_proof_attempts (count_attempt c.attempts))) [
      | inl out ↦ rw out (
          answered-IsSound c (count_attempt c.attempts) (refused guesses_reason) h
            (omega (arith, h.guesses_left awaits)) refl (λ id e. cc))
      | inr few ↦ rw few (counted-IsSound c h awaits few)
    ]

approve_chosen-IsSound :
    (c : Ceremony) (r : Result DeskError Bytes)
    → IsSound c
    → ((id : Bytes) → r ≡ ok id → Offers c.choices id)
    → IsSound (approve_chosen c r).0
unfolding approve_chosen
approve_chosen-IsSound c (ok id) h o = chosen-IsSound c id h (o id refl)
approve_chosen-IsSound c (err e) h o = h

pub approve_one-IsSound :
    (credential_id : Option Bytes) (proof_ok : Bool) (c : Ceremony)
    → IsSound c
    → IsSound (approve_one c credential_id proof_ok).0
unfolding approve_one
approve_one-IsSound credential_id proof_ok c h = elim (Bool-cases (is_awaiting c.state)) [
  | inr answered ↦ rw answered h
  | inl awaits ↦ rw awaits (proved proof_ok awaits)
]
  where
    proved :
        (b : Bool)
        → is_awaiting c.state ≡ true
        → IsSound
            (if not b then wrong_proof c else approve_chosen c (choose c.choices credential_id)).0
    proved false awaits = wrong_proof-IsSound c h awaits
    proved true awaits =
        approve_chosen-IsSound c (choose c.choices credential_id) h
          (λ id e. choose-Offers c.choices credential_id id e)

pub nonce-approve_one :
    (credential_id : Option Bytes) (proof_ok : Bool) (c : Ceremony)
    → (approve_one c credential_id proof_ok).0.nonce ≡ c.nonce
unfolding approve_one wrong_proof approve_chosen
nonce-approve_one credential_id proof_ok c = ground arith
