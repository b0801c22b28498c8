-- ===== src/Ctap/Authenticator/Examples.antt =====
-- A backend that counts how often a person was asked.
use blackbag.Common.{ℕ, suc, ◌≡◌, refl, true, false, none, List, [], ◌∷◌, replicate}
use blackbag.Common.Bytes.{Bytes}
use blackbag.Common.Int.{ℤ, negsuc}
use blackbag.Common.Result.{ok, err}
use blackbag.Ctap.Cbor.{MakeCredential, CredentialDescriptor, make_credential_request}
use blackbag.Ctap.Cbor.Examples.{flat}
use blackbag.Ctap.Authenticator.{Backend, dispatch, make_credential, answer_made}
use blackbag.Ctap.Authenticator.Asking.{Outcome, dispatch-Outcome}

abbrev person : Backend ℕ
person = record {
  count_for = λ rp s. (1, s);
  holds_any = λ rp ids s. (true, s);
  make_credential = λ req s. (ok (record { auth_data = replicate 37 0xaa; fmt = "none" }), suc s);
  get_assertion = λ req s. (err 0x27, suc s);
}

abbrev make : List ℤ → List Bytes → MakeCredential
make algorithms ids = record {
  client_data_hash = replicate 32 0x11;
  rp = record { id = "example.com"; name = none };
  user = record { id = 1 ∷ []; name = none; display_name = none };
  algorithms = algorithms;
  exclude_list = descriptors ids;
  options = record { rk = none; up = none; uv = none };
  hmac_secret = false;
  pin_uv_auth_param = none;
}
  where
    descriptors : List Bytes → List CredentialDescriptor
    descriptors [] = []
    descriptors (id ∷ ids) = record { id = id; kind = "public-key" } ∷ descriptors ids

-- Nobody is asked for a credential that is held already, and somebody is for one that is not.
asked_once :
    ((dispatch flat person (make_credential_request (make (negsuc 6 ∷ []) ((1 ∷ []) ∷ []))) 0).1
      ≡ 0)
    × ((dispatch flat person (make_credential_request (make (negsuc 6 ∷ []) [])) 0).1 ≡ 1)
unfolding dispatch make_credential answer_made
asked_once = (refl, refl)

dispatch-Outcome_example :
    Outcome flat person
      (make_credential_request (make (negsuc 6 ∷ []) []))
      0
      (dispatch flat person (make_credential_request (make (negsuc 6 ∷ []) [])) 0)
dispatch-Outcome_example =
    dispatch-Outcome flat person (make_credential_request (make (negsuc 6 ∷ []) [])) 0
