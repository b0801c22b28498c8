-- ===== src/Consent/Guesses.antt =====
-- Guesses at the passphrase are counted, and run out.
use blackbag.Common.{
  ℕ, ◌+◌, ◌≤◌, ◌≡◌, ◌≢◌, refl, sym, inl, inr, Bool, true, false, not, ◌&&◌, ◌||◌, Option, List, [],
  ◌∷◌, map, String, arith, Bool-cases, if◌then◌else◌, subst, str_eq, str_eq_iff, All, All-filter,
}
use blackbag.Common.Bytes.{Bytes}
use blackbag.Common.Result.{Result, ok, err}
use blackbag.Consent.Ceremony.{max_proof_attempts, State, refused, deferred, Ceremony, is_awaiting}
use blackbag.Consent.Desk.{
  DeskError, Desk, lapse, retained, expire, check_register, fresh, admit, register, choose,
  wrong_proof, approve_chosen, approve_one, on_first, approve, set_state, refuse, defer,
  collectable, take_answered, clear,
}
use blackbag.Consent.Pending.{has_nonce, Distinct, All-append, All-on_first, All-take_first}
use blackbag.Consent.Soundness.{IsSound, nonce-approve_one}
use blackbag.Consent.Invariant.{
  IsValid, new-IsValid, expire-IsValid, register-IsValid, approve-IsValid, refuse-IsValid,
  defer-IsValid, take_answered-IsValid, clear-IsValid,
}
use native.Mathlib.Nat.{add-zero, add_comm}
use blackbag.Consent.Trace.{
  Event, registers, approves, refuses, defers, takes, clears, apply, after,
}

-- A ceremony of this nonce that still waits has been guessed at `n` times at least.
abbrev Guessed : String → ℕ → Ceremony → Type 0
Guessed nonce n c = str_eq c.nonce nonce ≡ true → is_awaiting c.state ≡ true → n ≤ c.attempts

-- How often an event guesses wrong at a nonce, and whether it registers it.
abbrev pub wrong_guess : String → Event → ℕ
wrong_guess nonce (approves k named proof_ok now) = if str_eq k nonce && not proof_ok then 1 else 0
wrong_guess nonce _ = 0

abbrev pub wrong_guesses : String → List Event → ℕ
wrong_guesses nonce [] = 0
wrong_guesses nonce (e ∷ es) = wrong_guess nonce e + wrong_guesses nonce es

abbrev pub registers_nonce : String → List Event → Bool
registers_nonce nonce [] = false
registers_nonce nonce (registers c now ∷ es) = str_eq c.nonce nonce || registers_nonce nonce es
registers_nonce nonce (e ∷ es) = registers_nonce nonce es

-- The desk after more events, newest first.
unfoldable pub apply_all : List Event → Desk → Desk
apply_all [] d = d
apply_all (e ∷ es) d = apply e (apply_all es d)

apply-IsValid : (e : Event) (d : Desk) → IsValid d → IsValid (apply e d)
unfolding apply
apply-IsValid (registers c now) d h = register-IsValid d c now h
apply-IsValid (approves nonce named proof_ok now) d h = approve-IsValid d nonce named proof_ok now h
apply-IsValid (refuses nonce reason now) d h = refuse-IsValid d nonce reason now h
apply-IsValid (defers nonce now) d h = defer-IsValid d nonce now h
apply-IsValid (takes nonce collector now) d h = take_answered-IsValid d nonce collector now h
apply-IsValid clears d h = clear-IsValid d

pub apply_all-IsValid : (es : List Event) (d : Desk) → IsValid d → IsValid (apply_all es d)
unfolding apply_all
apply_all-IsValid [] d h = h
apply_all-IsValid (e ∷ es) d h = apply-IsValid e (apply_all es d) (apply_all-IsValid es d h)

-- After any history the desk is well formed.
pub after-IsValid : (past : List Event) → IsValid (after past)
unfolding after
after-IsValid [] = new-IsValid
after-IsValid (e ∷ past) = apply-IsValid e (after past) (after-IsValid past)

lapse-Guessed :
    (nonce : String) (n now : ℕ) (c : Ceremony) → Guessed nonce n c → Guessed nonce n (lapse now c)
unfolding lapse
lapse-Guessed nonce n now c h = λ same awaits. ground (arith, h)

expire-Guessed :
    (nonce : String) (n now : ℕ) (d : Desk)
    → All (Guessed nonce n) d.pending
    → All (Guessed nonce n) (expire now d).pending
unfolding expire
expire-Guessed nonce n now d h =
    All-filter (Guessed nonce n) (retained now) (map (lapse now) d.pending) (lapsed d.pending h)
  where
    lapsed :
        (cs : List Ceremony) → All (Guessed nonce n) cs → All (Guessed nonce n) (map (lapse now) cs)
    lapsed [] g = g
    lapsed (c ∷ cs) (gc, gcs) = (lapse-Guessed nonce n now c gc, lapsed cs gcs)

-- One approval of a ceremony: a wrong guess that leaves it waiting has been counted.
wrong_proof-counted :
    (n : ℕ) (c : Ceremony)
    → IsSound c
    → is_awaiting c.state ≡ true
    → n ≤ c.attempts
    → is_awaiting (wrong_proof c).0.state ≡ true
    → n + 1 ≤ (wrong_proof c).0.attempts
unfolding wrong_proof
wrong_proof-counted n c s awaits h still = ground (arith, s.guesses_left)

approve_chosen-answered :
    (c : Ceremony) (named : Option Bytes) (n : ℕ)
    → n ≤ c.attempts
    → n ≤ (approve_chosen c (choose c.choices named)).0.attempts
unfolding approve_chosen
approve_chosen-answered c named n h = ground arith

approve_one-counted :
    (n : ℕ) (named : Option Bytes) (proof_ok : Bool) (c : Ceremony)
    → IsSound c
    → (is_awaiting c.state ≡ true → n ≤ c.attempts)
    → is_awaiting (approve_one c named proof_ok).0.state ≡ true
    → n + (if not proof_ok then 1 else 0) ≤ (approve_one c named proof_ok).0.attempts
unfolding approve_one
approve_one-counted n named proof_ok c s h still =
    ground (arith, wrong_proof-counted n c s, approve_chosen-answered c named n)

absent-Guessed :
    (nonce : String) (n : ℕ) (cs : List Ceremony)
    → has_nonce nonce cs ≡ false
    → All (Guessed nonce n) cs
absent-Guessed nonce n [] h = tt
absent-Guessed nonce n (c ∷ cs) h =
    (λ same. absurd (ground arith), absent-Guessed nonce n cs (ground arith))

-- An approval of the nonce itself, and one of another.
on_first-counted :
    (nonce : String) (n : ℕ) (named : Option Bytes) (proof_ok : Bool) (cs : List Ceremony)
    → Distinct cs
    → All IsSound cs
    → All (Guessed nonce n) cs
    → All
        (Guessed nonce (n + (if not proof_ok then 1 else 0)))
        (on_first nonce (λ c. approve_one c named proof_ok) cs).0
unfolding on_first
on_first-counted nonce n named proof_ok [] d s h = tt
on_first-counted nonce n named proof_ok (c ∷ cs) (dc, dcs) (sc, scs) (hc, hcs) =
    elim (Bool-cases (str_eq c.nonce nonce)) [
      | inl hit ↦
          let absent : has_nonce nonce cs ≡ false =
            subst (λ k. has_nonce k cs ≡ false) ((str_eq_iff c.nonce nonce).0 hit) dc in
          rw hit (
            λ same awaits. approve_one-counted n named proof_ok c sc (hc hit) awaits,
            absent-Guessed nonce _ cs absent,
          )
      | inr miss ↦
          rw miss
            (λ same. absurd (ground arith), on_first-counted nonce n named proof_ok cs dcs scs hcs)
    ]

on_first-other :
    (nonce k : String) (n : ℕ) (named : Option Bytes) (proof_ok : Bool) (cs : List Ceremony)
    → str_eq k nonce ≡ false
    → All (Guessed nonce n) cs
    → All (Guessed nonce n) (on_first k (λ c. approve_one c named proof_ok) cs).0
on_first-other nonce k n named proof_ok cs ne =
    All-on_first (λ c. approve_one c named proof_ok) (nonce-approve_one named proof_ok)
      (Guessed nonce n) k
      (λ c hit h same.
        absurd
          (ground (arith, nonce-approve_one named proof_ok c, str_eq_iff c.nonce k, same, ne, hit)))
      cs

approve-Guessed :
    (nonce k : String) (n : ℕ) (named : Option Bytes) (proof_ok : Bool) (now : ℕ) (d : Desk)
    → IsValid d
    → All (Guessed nonce n) d.pending
    → All
        (Guessed nonce (n + wrong_guess nonce (approves k named proof_ok now)))
        (approve d k named proof_ok now).0.pending
unfolding approve
approve-Guessed nonce k n named proof_ok now d v h = elim (Bool-cases (str_eq k nonce)) [
  | inl same ↦ rw same (
      subst
        (λ j.
          All (Guessed nonce (n + (if not proof_ok then 1 else 0)))
            (on_first j (λ c. approve_one c named proof_ok) (expire now d).pending).0)
        (sym ((str_eq_iff k nonce).0 same))
        (on_first-counted nonce n named proof_ok (expire now d).pending
          (expire-IsValid now d v).distinct (expire-IsValid now d v).sound
          (expire-Guessed nonce n now d h)))
  | inr other ↦ rw other (
      rw add-zero (
        on_first-other nonce k n named proof_ok (expire now d).pending other
          (expire-Guessed nonce n now d h)))
]

admit-Guessed :
    (nonce : String) (n : ℕ) (d : Desk) (c : Ceremony) (now : ℕ) (r : Result DeskError (Unit {0}))
    → str_eq c.nonce nonce ≡ false
    → All (Guessed nonce n) d.pending
    → All (Guessed nonce n) (admit d c now r).0.pending
unfolding admit fresh
admit-Guessed nonce n d c now (err x) ne h = h
admit-Guessed nonce n d c now (ok _) ne h =
    All-append (Guessed nonce n) d.pending (fresh now c) h
      (λ same. absurd (ground (arith, same, ne)))

answered-Guessed :
    (nonce : String) (n : ℕ) (d : Desk) (k : String) (state : State) (now : ℕ)
    → is_awaiting state ≡ false
    → All (Guessed nonce n) d.pending
    → All (Guessed nonce n) (set_state d k state now).0.pending
unfolding set_state
answered-Guessed nonce n d k state now answered h =
    All-on_first (λ c. (record c { state = state }, ok tt)) (λ c. refl) (Guessed nonce n) k
      (λ c _ _ same awaits. absurd (ground (arith, answered, awaits))) (expire now d).pending
      (expire-Guessed nonce n now d h)

apply-Guessed :
    (nonce : String) (n : ℕ) (e : Event) (d : Desk)
    → registers_nonce nonce (e ∷ []) ≡ false
    → IsValid d
    → All (Guessed nonce n) d.pending
    → All (Guessed nonce (n + wrong_guess nonce e)) (apply e d).pending
unfolding apply register refuse defer take_answered clear
apply-Guessed nonce n (registers c now) d ne v h = rw add-zero (
    admit-Guessed nonce n (expire now d) c now (check_register (expire now d) c) (ground arith)
      (expire-Guessed nonce n now d h))
apply-Guessed nonce n (approves k named proof_ok now) d ne v h =
    approve-Guessed nonce k n named proof_ok now d v h
apply-Guessed nonce n (refuses k reason now) d ne v h =
    rw add-zero (answered-Guessed nonce n d k (refused reason) now refl h)
apply-Guessed nonce n (defers k now) d ne v h =
    rw add-zero (answered-Guessed nonce n d k deferred now refl h)
apply-Guessed nonce n (takes k collector now) d ne v h = rw add-zero (
    All-take_first (Guessed nonce n) (collectable k collector) (expire now d).pending
      (expire-Guessed nonce n now d h))
apply-Guessed nonce n clears d ne v h = tt

registers_nonce-cons :
    (nonce : String) (e : Event) (es : List Event)
    → registers_nonce nonce (e ∷ es) ≡ false
    → (registers_nonce nonce (e ∷ []) ≡ false) × (registers_nonce nonce es ≡ false)
registers_nonce-cons nonce (registers c now) es h = ground arith
registers_nonce-cons nonce (approves _ _ _ _) es h = (refl, h)
registers_nonce-cons nonce (refuses _ _ _) es h = (refl, h)
registers_nonce-cons nonce (defers _ _) es h = (refl, h)
registers_nonce-cons nonce (takes _ _ _) es h = (refl, h)
registers_nonce-cons nonce clears es h = (refl, h)

Guessed-zero : (nonce : String) (cs : List Ceremony) → All (Guessed nonce 0) cs
Guessed-zero nonce [] = tt
Guessed-zero nonce (c ∷ cs) = (λ same awaits. omega arith, Guessed-zero nonce cs)

apply_Guessed-zero :
    (nonce : String) (es : List Event) (d : Desk)
    → registers_nonce nonce es ≡ false
    → IsValid d
    → All (Guessed nonce (wrong_guesses nonce es)) (apply_all es d).pending
unfolding apply_all
apply_Guessed-zero nonce [] d ne v = Guessed-zero nonce d.pending
apply_Guessed-zero nonce (e ∷ es) d ne v =
    let (first, later) = registers_nonce-cons nonce e es ne in
    rw add_comm (
      apply-Guessed nonce (wrong_guesses nonce es) e (apply_all es d) first
        (apply_all-IsValid es d v) (apply_Guessed-zero nonce es d later v))

-- A ceremony that no longer waits cannot be approved.
on_first-refused :
    (nonce : String) (named : Option Bytes) (proof_ok : Bool) (n : ℕ) (cs : List Ceremony)
    → max_proof_attempts ≤ n
    → All IsSound cs
    → All (Guessed nonce n) cs
    → (on_first nonce (λ c. approve_one c named proof_ok) cs).1 ≢ ok tt
unfolding on_first
on_first-refused nonce named proof_ok n [] hn s h e = cc
on_first-refused nonce named proof_ok n (c ∷ cs) hn (sc, scs) (hc, hcs) e =
    elim (Bool-cases (str_eq c.nonce nonce)) [
      | inl hit ↦ out_of_guesses c sc (hc hit) (rw hit at e)
      | inr miss ↦ on_first-refused nonce named proof_ok n cs hn scs hcs (rw miss at e)
    ]
  where
    out_of_guesses :
        (c : Ceremony)
        → IsSound c
        → (is_awaiting c.state ≡ true → n ≤ c.attempts)
        → (approve_one c named proof_ok).1 ≢ ok tt
    out_of_guesses c s g q = unfold approve_one in ground (arith, s.guesses_left)

-- Three wrong passphrases are all that a request admits: whatever else happens on the desk, as long as
-- the nonce is not registered anew, no approval of it succeeds after them, with the right passphrase
-- neither.
pub guesses_run_out :
    (nonce : String) (es : List Event) (d : Desk) (named : Option Bytes) (proof_ok : Bool) (now : ℕ)
    → IsValid d
    → registers_nonce nonce es ≡ false
    → max_proof_attempts ≤ wrong_guesses nonce es
    → (approve (apply_all es d) nonce named proof_ok now).1 ≢ ok tt
unfolding approve
guesses_run_out nonce es d named proof_ok now v ne enough =
    let d' : Desk = apply_all es d in
    on_first-refused nonce named proof_ok (wrong_guesses nonce es) (expire now d').pending enough
      (expire-IsValid now d' (apply_all-IsValid es d v)).sound
      (expire-Guessed nonce (wrong_guesses nonce es) now d' (apply_Guessed-zero nonce es d ne v))
