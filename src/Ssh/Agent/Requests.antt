-- ===== src/Ssh/Agent/Requests.antt =====
-- A sign request is read exactly as a client writes it, and only such a request reaches the signer.
use blackbag.Common.{
  ℕ, ◌^◌, ◌<◌, ◌≤◌, ◌≡◌, refl, ap, ◌∙◌, inl, inr, true, Bool-cases, Option, none, some, [], ◌∷◌,
  ◌++◌, arith, ◌==◌, not, if◌then◌else◌, length, All,
}
use blackbag.Common.Bytes.{Bytes, IsByte, be32}
use blackbag.Common.Result.{Result, ok, err, to_option, to_option_inv, and_then_inv}
use blackbag.Ssh.Wire.{max_string, WireError, Reader, new, remaining, is_empty, u8, u32, string}
use blackbag.Ssh.Wire.Reading.{rest, u8_inv, u32_inv, string_inv, remaining_lem, rest-IsByte}
use blackbag.Ssh.Agent.{
  sign_request, request_identities, Signer, parse_sign, failure, respond, signed, respond_sign,
  respond_identities, respond_kind, respond_read,
}

-- A length-prefixed string as RFC 4251 writes it.
abbrev pub encoded : Bytes → Bytes
encoded s = be32 (length s) ++ s

-- What follows the kind in a sign request.
abbrev pub sign_body : Bytes → Bytes → ℕ → Bytes
sign_body key_blob bytes flags = encoded key_blob ++ (encoded bytes ++ be32 flags)

abbrev pub Fits : Bytes → Bytes → ℕ → Type 0
Fits key_blob bytes flags =
    (length key_blob ≤ max_string) × (length bytes ≤ max_string) × (flags < 2 ^ 32)

abbrev some_sign : Bytes × Bytes × ℕ → Option (Bytes × Bytes × ℕ)
some_sign = some

length-zero : (xs : Bytes) → length xs ≡ 0 → xs ≡ []
length-zero [] h = refl
length-zero (x ∷ xs) h = absurd (omega arith)

cast-Fits :
    (k d : Bytes) (f : ℕ) (key_blob bytes : Bytes) (flags : ℕ)
    → k ≡ key_blob
    → d ≡ bytes
    → f ≡ flags
    → Fits k d f
    → Fits key_blob bytes flags
cast-Fits k d f key_blob bytes flags hk hd hf (a, b, c) =
    let lk : length k ≡ length key_blob = ap length hk in
    let ld : length d ≡ length bytes = ap length hd in (omega arith, omega arith, omega arith)

-- What is left to show once the three parts are read.
sign_body_of :
    (r r1 r2 r3 : Reader) (k d : Bytes) (f : ℕ) (key_blob bytes : Bytes) (flags : ℕ)
    → Fits k d f
    → rest r ≡ encoded k ++ rest r1
    → rest r1 ≡ encoded d ++ rest r2
    → rest r2 ≡ be32 f ++ rest r3
    → (if not (is_empty r3) then none else some_sign (k, d, f)) ≡ some (key_blob, bytes, flags)
    → Fits key_blob bytes flags × (rest r ≡ sign_body key_blob bytes flags)
sign_body_of r r1 r2 r3 k d f key_blob bytes flags fits h0 h1 h2 out =
    elim (Bool-cases (is_empty r3)) [
      | inr more ↦ cc (rw more at out)
      | inl done ↦
          let same : some_sign (k, d, f) ≡ some (key_blob, bytes, flags) = rw done at out in
          let left : remaining r3 ≡ length (rest r3) = remaining_lem r3 in
          let nothing_left : rest r3 ≡ [] = length-zero (rest r3) (ground arith) in
          let k_lem : k ≡ key_blob = cc in
          let d_lem : d ≡ bytes = cc in
          let f_lem : f ≡ flags = cc in
          let whole : rest r ≡ sign_body k d f =
            h0
            ∙ ap (λ t. encoded k ++ t)
                (h1 ∙ ap (λ t. encoded d ++ t) (h2 ∙ ap (λ t. be32 f ++ t) nothing_left)) in
          (cast-Fits k d f key_blob bytes flags k_lem d_lem f_lem fits, whole ∙ cc)
    ]

parse_sign_inv :
    (r : Reader) (key_blob bytes : Bytes) (flags : ℕ)
    → All IsByte (rest r)
    → parse_sign r ≡ some (key_blob, bytes, flags)
    → Fits key_blob bytes flags × (rest r ≡ sign_body key_blob bytes flags)
unfolding parse_sign
parse_sign_inv r key_blob bytes flags are h =
    let ((k, r1), first, h1) = and_then_inv (to_option (string r)) _ _ h in
    let ((d, r2), second, h2) = and_then_inv (to_option (string r1)) _ _ h1 in
    let ((f, r3), third, h3) = and_then_inv (to_option (u32 r2)) _ _ h2 in
    let (rest0, hk) = string_inv r r1 k are (to_option_inv (string r) (k, r1) first) in
    let are1 = rest-IsByte (rest r) (encoded k) (rest r1) are rest0 in
    let (rest1, hd) = string_inv r1 r2 d are1 (to_option_inv (string r1) (d, r2) second) in
    let are2 = rest-IsByte (rest r1) (encoded d) (rest r2) are1 rest1 in
    let (rest2, s, hf) = u32_inv r2 r3 f are2 (to_option_inv (u32 r2) (f, r3) third) in
    sign_body_of r r1 r2 r3 k d f key_blob bytes flags (hk, hd, hf) rest0 rest1 rest2 h3

eqb : (a b : ℕ) → (a == b) ≡ true → a ≡ b
eqb a b h = ground arith

module _ {S : Type 0} (signer : Signer S) where
  -- What an answer can be.
  pub data Answered (request : Bytes) (s : S) : Bytes × S → Type 0 where
    listed :
        (tail : Bytes)
        → request ≡ request_identities ∷ tail
        → Answered request s (respond_identities signer (signer.identities s))
    asked :
        (key_blob bytes : Bytes) (flags : ℕ)
        → Fits key_blob bytes flags
        → request ≡ sign_request ∷ sign_body key_blob bytes flags
        → Answered request s (signed signer (signer.sign key_blob bytes flags s))
    failed : Answered request s (failure, s)

  respond_sign-Answered :
      (request : Bytes) (s : S) (r : Reader) (parsed : Option (Bytes × Bytes × ℕ))
      → All IsByte (rest r)
      → request ≡ sign_request ∷ rest r
      → parse_sign r ≡ parsed
      → Answered request s (respond_sign signer parsed s)
  respond_sign-Answered request s r none are h e = failed
  respond_sign-Answered request s r (some (key_blob, bytes, flags)) are h e =
      let (fits, body) = parse_sign_inv r key_blob bytes flags are e in
      asked key_blob bytes flags fits (h ∙ ap (λ t. sign_request ∷ t) body)

  respond_kind-Answered :
      (request : Bytes) (s : S) (kind : ℕ) (r : Reader)
      → All IsByte (rest r)
      → request ≡ kind ∷ rest r
      → Answered request s (respond_kind signer kind r s)
  respond_kind-Answered request s kind r are h = elim (Bool-cases (kind == request_identities)) [
    | inl lists ↦
        rw lists (listed (rest r) (h ∙ ap (λ k. k ∷ rest r) (eqb kind request_identities lists)))
    | inr other ↦ elim (Bool-cases (kind == sign_request)) [
      | inl signs ↦
          rw (other, signs)
            (respond_sign-Answered request s r (parse_sign r) are
              (h ∙ ap (λ k. k ∷ rest r) (eqb kind sign_request signs)) refl)
      | inr unknown ↦ rw (other, unknown) failed
    ]
  ]

  respond_read-Answered :
      (request : Bytes) (s : S)
      → All IsByte request
      → (read : Result WireError (ℕ × Reader)) → u8 (new request) ≡ read
      → Answered request s (respond_read signer read s)
  respond_read-Answered request s are (err e) h = failed
  respond_read-Answered request s are (ok (kind, r)) h =
      let (first, at) = u8_inv (new request) r kind h in
      respond_kind-Answered request s kind r (rest-IsByte request (kind ∷ []) (rest r) are first)
        first

  -- Every request of bytes is answered. Only a request of kind 11 lists the identities, and the
  -- signer is asked only for exactly what a well-formed sign request says, with no byte left over.
  -- Any other request is answered by a failure and leaves the vault as it was.
  pub respond-Answered :
      (request : Bytes) (s : S) → All IsByte request → Answered request s (respond signer request s)
  unfolding respond
  respond-Answered request s are = respond_read-Answered request s are (u8 (new request)) refl
