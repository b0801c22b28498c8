-- ===== src/Ctap/Authenticator.antt =====
-- crates/blackbag-core/src/ctap/authenticator.rs: the CTAP2 commands answered. What asks a person and
-- what holds the credentials is the backend, a parameter with a state of its own.
pub mod Asking
mod Examples
use blackbag.Common.{
  ℕ, ◌+◌, ◌==◌, not, Bool, true, false, Option, none, some, List, [], ◌∷◌, ◌++◌, String, ltb,
  if◌then◌else◌, any, replicate, map as map_list, ◌≡◌, refl, Bool-cases, inl, inr,
}
use blackbag.Common.Bytes.{Bytes}
use blackbag.Common.Int.{ℤ, pos, negsuc, int_eq}
use blackbag.Common.Result.{Result, ok, err}
use blackbag.Ctap.Hid.{max_message}
use blackbag.Ctap.Cbor.{
  CborError, Values, MakeCredential, GetAssertion, Request, make_credential_request,
  get_assertion_request, get_info_request, get_next_assertion, selection, client_pin, reset,
  unknown, CredentialDescriptor,
}
use blackbag.Ctap.Cbor.Responses.{are_small, map, response}

abbrev pub status_ok : ℕ
status_ok = 0x00

abbrev pub credential_excluded : ℕ
credential_excluded = 0x19

abbrev pub unsupported_algorithm : ℕ
unsupported_algorithm = 0x26

abbrev pub operation_denied : ℕ
operation_denied = 0x27

abbrev pub invalid_option : ℕ
invalid_option = 0x2c

abbrev pub no_credentials : ℕ
no_credentials = 0x2e

abbrev pub not_allowed : ℕ
not_allowed = 0x30

abbrev pub pin_not_set : ℕ
pin_not_set = 0x35

abbrev pub invalid_command : ℕ
invalid_command = 0x01

abbrev pub other_status : ℕ
other_status = 0x7f

abbrev pub aaguid : Bytes
aaguid = replicate 16 0

pub record Made : Type 0 where
  pub auth_data : Bytes
  pub fmt : String

pub record Asserted : Type 0 where
  pub credential_id : Bytes
  pub auth_data : Bytes
  pub signature : Bytes
  pub user_handle : Bytes
  pub total : ℕ

pub record Backend (S : Type 0) : Type 0 where
  pub count_for : String → S → ℕ × S
  pub holds_any : String → List Bytes → S → Bool × S
  pub make_credential : MakeCredential → S → Result ℕ Made × S
  pub get_assertion : GetAssertion → S → Result ℕ Asserted × S

-- `result.unwrap_or_else(|_| vec![status::OTHER])`
abbrev pub or_other : Result CborError Bytes → Bytes
or_other (ok bytes) = bytes
or_other (err e) = other_status ∷ []

abbrev pub is_set : Option Bytes → Bool
is_set none = false
is_set (some p) = true

-- `uv == Some(false)`
abbrev pub refuses_uv : Option Bool → Bool
refuses_uv (some false) = true
refuses_uv _ = false

module _ {V S : Type 0} (values : Values V) (backend : Backend S) where
  open values use {integer_value, bytes_value, text_value, bool_value, array_value, map_value}

  unfoldable pub get_info : V
  get_info =
      map values
        ((pos 0x01, array_value (text_value "FIDO_2_0" ∷ text_value "FIDO_2_1" ∷ []))
          ∷ (pos 0x02, array_value (text_value "credProtect" ∷ []))
          ∷ (pos 0x03, bytes_value aaguid)
          ∷ (
            pos 0x04,
            map_value (
                (text_value "plat", bool_value false)
                ∷ (text_value "rk", bool_value true)
                ∷ (text_value "up", bool_value true)
                ∷ (text_value "uv", bool_value true)
                ∷ (text_value "makeCredUvNotRqd", bool_value false)
                ∷ []),
          )
          ∷ (pos 0x05, integer_value (pos max_message))
          ∷ (pos 0x06, integer_value (pos 0))
          ∷ (pos 0x07, integer_value (pos 16))
          ∷ (pos 0x08, integer_value (pos 64))
          ∷ (pos 0x09, array_value (text_value "usb" ∷ []))
          ∷ (
            pos 0x0a,
            array_value (
                map_value (
                  (text_value "alg", integer_value (negsuc 6))
                  ∷ (text_value "type", text_value "public-key")
                  ∷ [])
                ∷ []),
          )
          ∷ [])
        refl

  -- The answers of the backend, as the client gets them.
  unfoldable pub answer_made : Result ℕ Made × S → Bytes × S
  answer_made (ok made, s) = (
    or_other (
        response values status_ok (
          some (
            map values
              ((pos 0x01, text_value made.fmt)
                ∷ (pos 0x02, bytes_value made.auth_data)
                ∷ (pos 0x03, map_value [])
                ∷ [])
              refl))),
    s,
  )
  answer_made (err code, s) = (code ∷ [], s)

  unfoldable pub assertion_entries : Asserted → List (ℤ × V)
  assertion_entries a =
      ((
        pos 0x01,
        map_value (
            (text_value "id", bytes_value a.credential_id)
            ∷ (text_value "type", text_value "public-key")
            ∷ []),
      )
        ∷ (pos 0x02, bytes_value a.auth_data)
        ∷ (pos 0x03, bytes_value a.signature)
        ∷ (pos 0x04, map_value ((text_value "id", bytes_value a.user_handle) ∷ []))
        ∷ [])
      ++ (if ltb 1 a.total then (pos 0x05, integer_value (pos 1)) ∷ [] else [])

  pub assertion_entries-are_small : (a : Asserted) → are_small (assertion_entries a) ≡ true
  unfolding assertion_entries
  assertion_entries-are_small a = elim (Bool-cases (ltb 1 a.total)) [
    | inl many ↦ rw many refl
    | inr one ↦ rw one refl
  ]

  unfoldable pub answer_asserted : Result ℕ Asserted × S → Bytes × S
  answer_asserted (ok a, s) = (
    or_other (
        response values status_ok
          (some (map values (assertion_entries a) (assertion_entries-are_small a)))),
    s,
  )
  answer_asserted (err code, s) = (code ∷ [], s)

  -- The end of `make_credential`, after the exclude list was looked up.
  abbrev pub make_unless : MakeCredential → Bool × S → Bytes × S
  make_unless req (true, s) = (credential_excluded ∷ [], s)
  make_unless req (false, s) = answer_made (backend.make_credential req s)

  -- The lookup of the exclude list; an empty one is not looked up.
  abbrev pub excluded : MakeCredential → S → Bool × S
  excluded req s = excluded_of req.exclude_list
    where
      excluded_of : List CredentialDescriptor → Bool × S
      excluded_of [] = (false, s)
      excluded_of (c ∷ cs) = backend.holds_any req.rp.id (map_list (λ c. c.id) (c ∷ cs)) s

  unfoldable pub make_credential : MakeCredential → S → Bytes × S
  make_credential req s =
      if is_set req.pin_uv_auth_param
      then (pin_not_set ∷ [], s)
      else if not (any (λ a. int_eq a (negsuc 6)) req.algorithms)
      then (unsupported_algorithm ∷ [], s)
      else if refuses_uv req.options.uv
      then (invalid_option ∷ [], s)
      else make_unless req (excluded req s)

  -- The end of `get_assertion`, after the credentials were counted.
  abbrev pub assert_if : GetAssertion → ℕ × S → Bytes × S
  assert_if req (n, s) =
      if n == 0 then (no_credentials ∷ [], s) else answer_asserted (backend.get_assertion req s)

  unfoldable pub get_assertion : GetAssertion → S → Bytes × S
  get_assertion req s =
      if is_set req.pin_uv_auth_param
      then (pin_not_set ∷ [], s)
      else if refuses_uv req.options.uv
      then (invalid_option ∷ [], s)
      else assert_if req (backend.count_for req.rp_id s)

  unfoldable pub dispatch : Request → S → Bytes × S
  dispatch get_info_request s = (or_other (response values status_ok (some get_info)), s)
  dispatch (make_credential_request req) s = make_credential req s
  dispatch (get_assertion_request req) s = get_assertion req s
  dispatch get_next_assertion s = (not_allowed ∷ [], s)
  dispatch client_pin s = (pin_not_set ∷ [], s)
  dispatch reset s = (operation_denied ∷ [], s)
  dispatch selection s = (operation_denied ∷ [], s)
  dispatch (unknown cmd) s = (invalid_command ∷ [], s)
