-- ===== src/Ctap/Authenticator/Asking.antt =====
-- When a person is asked, and what is answered without asking anybody.
use blackbag.Common.{
  ℕ, zero, suc, ◌≡◌, ◌≢◌, refl, sym, subst, Bool, true, false, Bool-cases, inl, inr, some, List, [],
  ◌∷◌, ◌==◌, any, map, ◌⊎◌, arith,
}
use blackbag.Common.Bytes.{Bytes}
use blackbag.Common.Int.{negsuc, int_eq}
use blackbag.Ctap.Cbor.{
  CredentialDescriptor, Values, MakeCredential, GetAssertion, Request, make_credential_request,
  get_assertion_request, get_info_request, get_next_assertion, selection, client_pin, reset,
  unknown,
}
use blackbag.Ctap.Cbor.Responses.{response}
use blackbag.Ctap.Authenticator.{
  Backend, or_other, is_set, refuses_uv, get_info, status_ok, credential_excluded, no_credentials,
  answer_made, answer_asserted, make_unless, excluded, make_credential, assert_if, get_assertion,
  dispatch,
}

module _ {V S : Type 0} (values : Values V) (backend : Backend S) where
  -- A new credential may be asked for: no PIN protocol is used, ES256 is among the algorithms, and
  -- verifying the user is not declined.
  abbrev pub MayMake : MakeCredential → Type 0
  MayMake r =
      (is_set r.pin_uv_auth_param ≡ false)
      × (any (λ a. int_eq a (negsuc 6)) r.algorithms ≡ true)
      × (refuses_uv r.options.uv ≡ false)

  abbrev pub MayAssert : GetAssertion → Type 0
  MayAssert r = (is_set r.pin_uv_auth_param ≡ false) × (refuses_uv r.options.uv ≡ false)

  -- No credential of the exclude list is held: the list is empty, and then the backend is not asked, or
  -- the backend says so of all its ids under the relying party of the request.
  abbrev pub NoneExcluded : MakeCredential → S → S → Type 0
  NoneExcluded r s s' =
      ((r.exclude_list ≡ []) × (s' ≡ s))
      ⊎ ((r.exclude_list ≢ [])
          × (backend.holds_any r.rp.id (map (λ c. c.id) r.exclude_list) s ≡ (false, s')))

  -- One of them is, as the backend says.
  abbrev pub SomeExcluded : MakeCredential → S → S → Type 0
  SomeExcluded r s s' =
      (r.exclude_list ≢ [])
      × (backend.holds_any r.rp.id (map (λ c. c.id) r.exclude_list) s ≡ (true, s'))

  abbrev Excluded : MakeCredential → S → Bool × S → Type 0
  Excluded r s (true, s') = SomeExcluded r s s'
  Excluded r s (false, s') = NoneExcluded r s s'

  answered :
      (r : MakeCredential) (s : S) (x : Bool × S)
      → r.exclude_list ≢ []
      → backend.holds_any r.rp.id (map (λ c. c.id) r.exclude_list) s ≡ x
      → Excluded r s x
  answered r s (true, s') h e = (h, e)
  answered r s (false, s') h e = inr (h, e)

  excluded_lem :
      (r : MakeCredential) (s : S) (l : List CredentialDescriptor)
      → r.exclude_list ≡ l
      → Excluded r s (excluded values backend r s)
  excluded_lem r s [] e =
      let unasked : excluded values backend r s ≡ (false, s) = rw e refl in
      subst (Excluded r s) (sym unasked) (inl (e, refl))
  excluded_lem r s (c ∷ cs) e =
      let listed : r.exclude_list ≢ [] = λ i. cc in
      let asked : backend.holds_any r.rp.id (map (λ c. c.id) r.exclude_list) s
          ≡ excluded values backend r s =
        rw e refl in
      answered r s (excluded values backend r s) listed asked

  pub data Outcome (req : Request) (s : S) : Bytes × S → Type 0 where
    asked_to_make :
        (r : MakeCredential) (s' : S)
        → req ≡ make_credential_request r
        → MayMake r
        → NoneExcluded r s s'
        → Outcome req s (answer_made values backend (backend.make_credential r s'))
    asked_to_sign :
        (r : GetAssertion) (n : ℕ) (s' : S)
        → req ≡ get_assertion_request r
        → MayAssert r
        → backend.count_for r.rp_id s ≡ (suc n, s')
        → Outcome req s (answer_asserted values backend (backend.get_assertion r s'))
    held_already :
        (r : MakeCredential) (s' : S)
        → req ≡ make_credential_request r
        → SomeExcluded r s s'
        → Outcome req s (credential_excluded ∷ [], s')
    none_held :
        (r : GetAssertion) (s' : S)
        → req ≡ get_assertion_request r
        → backend.count_for r.rp_id s ≡ (0, s')
        → Outcome req s (no_credentials ∷ [], s')
    informed :
        req ≡ get_info_request
        → Outcome req s (or_other (response values status_ok (some (get_info values backend))), s)
    refused : (code : ℕ) → code ≢ status_ok → Outcome req s (code ∷ [], s)

  make_unless-Outcome :
      (req : Request) (s : S) (r : MakeCredential) (looked_up : Bool × S)
      → req ≡ make_credential_request r
      → MayMake r
      → Excluded r s looked_up
      → Outcome req s (make_unless values backend r looked_up)
  make_unless-Outcome req s r (true, s') h may e = held_already r s' h e
  make_unless-Outcome req s r (false, s') h may e = asked_to_make r s' h may e

  make_credential-Outcome :
      (req : Request) (s : S) (r : MakeCredential)
      → req ≡ make_credential_request r
      → Outcome req s (make_credential values backend r s)
  unfolding make_credential
  make_credential-Outcome req s r h = elim (Bool-cases (is_set r.pin_uv_auth_param)) [
    | inl pin ↦ rw pin (refused _ (λ e. absurd (omega arith)))
    | inr no_pin ↦ elim (Bool-cases (any (λ a. int_eq a (negsuc 6)) r.algorithms)) [
      | inr no_es256 ↦ rw (no_pin, no_es256) (refused _ (λ e. absurd (omega arith)))
      | inl es256 ↦ elim (Bool-cases (refuses_uv r.options.uv)) [
        | inl declined ↦ rw (no_pin, es256, declined) (refused _ (λ e. absurd (omega arith)))
        | inr uv ↦
            rw (no_pin, es256, uv)
              (make_unless-Outcome req s r (excluded values backend r s) h (no_pin, es256, uv)
                (excluded_lem r s r.exclude_list refl))
      ]
    ]
  ]

  assert_if-Outcome :
      (req : Request) (s : S) (r : GetAssertion) (counted : ℕ × S)
      → req ≡ get_assertion_request r
      → MayAssert r
      → backend.count_for r.rp_id s ≡ counted
      → Outcome req s (assert_if values backend r counted)
  assert_if-Outcome req s r (zero, s') h may e = none_held r s' h e
  assert_if-Outcome req s r (suc n, s') h may e =
      let positive : (suc n == 0) ≡ false = ground arith in
      rw positive (asked_to_sign r n s' h may e)

  get_assertion-Outcome :
      (req : Request) (s : S) (r : GetAssertion)
      → req ≡ get_assertion_request r
      → Outcome req s (get_assertion values backend r s)
  unfolding get_assertion
  get_assertion-Outcome req s r h = elim (Bool-cases (is_set r.pin_uv_auth_param)) [
    | inl pin ↦ rw pin (refused _ (λ e. absurd (omega arith)))
    | inr no_pin ↦ elim (Bool-cases (refuses_uv r.options.uv)) [
      | inl declined ↦ rw (no_pin, declined) (refused _ (λ e. absurd (omega arith)))
      | inr uv ↦
          rw (no_pin, uv)
            (assert_if-Outcome req s r (backend.count_for r.rp_id s) h (no_pin, uv) refl)
    ]
  ]

  -- Every request is answered. A person is asked to make a credential only if the request uses no PIN
  -- protocol, offers ES256, does not decline verifying the user, and its exclude list is empty or the
  -- backend, asked about all of its ids and the relying party, holds none of them; to sign only if it uses no PIN protocol, does not decline verifying the user, and
  -- there is a credential for its relying party. Otherwise nothing is changed but by the lookup, and
  -- the status is not OK, save for the request for information.
  pub dispatch-Outcome : (req : Request) (s : S) → Outcome req s (dispatch values backend req s)
  unfolding dispatch
  dispatch-Outcome get_info_request s = informed refl
  dispatch-Outcome (make_credential_request r) s = make_credential-Outcome _ s r refl
  dispatch-Outcome (get_assertion_request r) s = get_assertion-Outcome _ s r refl
  dispatch-Outcome get_next_assertion s = refused _ (λ e. absurd (omega arith))
  dispatch-Outcome client_pin s = refused _ (λ e. absurd (omega arith))
  dispatch-Outcome reset s = refused _ (λ e. absurd (omega arith))
  dispatch-Outcome selection s = refused _ (λ e. absurd (omega arith))
  dispatch-Outcome (unknown cmd) s = refused _ (λ e. absurd (omega arith))
