-- ===== src/Ctap/Cbor.antt =====
-- crates/blackbag-core/src/ctap/cbor.rs: the requests and responses of CTAP2. The value trees and their
-- encoding are those of the CBOR library: a parameter, with its constructors and, for each `match` on
-- a value, what the match finds.
pub mod Requests
pub mod Responses
pub mod Keys
pub mod Examples
use blackbag.Common.{
  ℕ, ◌+◌, ◌-◌, ◌%◌, ◌^◌, Bool, true, false, not, ◌&&◌, ◌||◌, Option, none, some, List, [], ◌∷◌,
  ◌++◌, String, ltb, ◌==◌, if◌then◌else◌, str_eq, length, any, find, map as map_list,
}
use blackbag.Common.Bytes.{Bytes}
use blackbag.Common.Int.{ℤ, pos, negsuc, int_eq, int_leb}
use blackbag.Common.Result.{Result, ok, err, ensure, ok_or, ◌>>=◌, ◌>>◌}

pub data CborError : Type 0 where
  empty_command unreadable not_a_map key_not_an_integer not_written no_params bad_hash_length :
      CborError
  duplicate_key : ℤ → CborError
  wrong_type missing : String → CborError

-- The library's values.
pub record Values (V : Type 0) : Type 0 where
  pub from_reader : Bytes → Option V
  pub into_writer : V → Option Bytes
  pub found_integer : V → Option ℤ
  pub found_bytes : V → Option Bytes
  pub found_text : V → Option String
  pub found_bool : V → Option Bool
  pub found_array : V → Option (List V)
  pub found_map : V → Option (List (V × V))
  pub is_null : V → Bool
  pub integer_value : ℤ → V
  pub bytes_value : Bytes → V
  pub text_value : String → V
  pub bool_value : Bool → V
  pub array_value : List V → V
  pub map_value : List (V × V) → V

pub record RelyingParty : Type 0 where
  pub id : String
  pub name : Option String

pub record User : Type 0 where
  pub id : Bytes
  pub name : Option String
  pub display_name : Option String

pub record CredentialDescriptor : Type 0 where
  pub id : Bytes
  pub kind : String

pub record Options : Type 0 where
  pub rk : Option Bool
  pub up : Option Bool
  pub uv : Option Bool

pub record MakeCredential : Type 0 where
  pub client_data_hash : Bytes
  pub rp : RelyingParty
  pub user : User
  pub algorithms : List ℤ
  pub exclude_list : List CredentialDescriptor
  pub options : Options
  pub hmac_secret : Bool
  pub pin_uv_auth_param : Option Bytes

pub record GetAssertion : Type 0 where
  pub rp_id : String
  pub client_data_hash : Bytes
  pub allow_list : List CredentialDescriptor
  pub options : Options
  pub pin_uv_auth_param : Option Bytes

pub data Request : Type 0 where
  make_credential_request : MakeCredential → Request
  get_assertion_request : GetAssertion → Request
  get_info_request get_next_assertion selection client_pin reset : Request
  unknown : ℕ → Request

-- `as i64` of an `i128`.
abbrev pub as_i64 : ℤ → ℤ
as_i64 (pos n) =
    let low = n % 2 ^ 64 in if ltb low (2 ^ 63) then pos low else negsuc (2 ^ 64 - 1 - low)
as_i64 (negsuc n) =
    let low = n % 2 ^ 64 in if ltb low (2 ^ 63) then negsuc low else pos (2 ^ 64 - 1 - low)

abbrev pub seen_key : {V : Type 0} → ℤ → List (ℤ × V) → Bool
seen_key key out = any (λ e. int_eq e.0 key) out

-- `map.iter().find(|(k, _)| *k == key).map(|(_, v)| v)`
abbrev pub take : {V : Type 0} → List (ℤ × V) → ℤ → Option V
take [] key = none
take (e ∷ es) key = if int_eq e.0 key then some e.1 else take es key

-- `Option::map(..).transpose()`
abbrev pub transpose : {E A B : Type 0} → (A → Result E B) → Option A → Result E (Option B)
transpose f none = ok none
transpose f (some a) = f a >>= λ b. ok (some b)

abbrev pub option_bool : Option Bool → Bool
option_bool none = false
option_bool (some b) = b

module _ {V : Type 0} (values : Values V) where
  open values use {
    from_reader, into_writer, found_integer, found_bytes, found_text, found_bool, found_array,
    found_map, is_null, integer_value, map_value,
  }

  -- The loop of `map_of`.
  unfoldable pub map_entries : List (ℤ × V) → List (V × V) → Result CborError (List (ℤ × V))
  map_entries out [] = ok out
  map_entries out ((k, v) ∷ entries) = ok_or (found_integer k) key_not_an_integer >>= λ key.
      ensure (not (seen_key key out)) (duplicate_key key)
      >> map_entries (out ++ (key, v) ∷ []) entries

  unfoldable pub map_of : Bytes → Result CborError (List (ℤ × V))
  map_of [] = ok []
  map_of (b ∷ bytes) = ok_or (from_reader (b ∷ bytes)) unreadable >>= λ value.
      ok_or (found_map value) not_a_map >>= λ entries. map_entries [] entries

  abbrev pub as_bytes : V → String → Result CborError Bytes
  as_bytes v what = ok_or (found_bytes v) (wrong_type what)

  abbrev pub as_text : V → String → Result CborError String
  as_text v what = ok_or (found_text v) (wrong_type what)

  abbrev pub as_map : V → String → Result CborError (List (V × V))
  as_map v what = ok_or (found_map v) (wrong_type what)

  abbrev pub is_name : String → Option String → Bool
  is_name name none = false
  is_name name (some t) = str_eq t name

  -- `m.iter().find(|(k, _)| matches!(k, Value::Text(t) if t == name)).map(|(_, v)| v)`
  abbrev pub field : List (V × V) → String → Option V
  field [] name = none
  field (e ∷ es) name = if is_name name (found_text e.0) then some e.1 else field es name

  -- `.and_then` on what `field` finds.
  abbrev pub found_in : {A : Type 0} → (V → Option A) → Option V → Option A
  found_in f none = none
  found_in f (some v) = f v

  abbrev pub text_field : List (V × V) → String → Option String
  text_field m name = found_in found_text (field m name)

  abbrev pub flag : List (V × V) → String → Option Bool
  flag m name = found_in found_bool (field m name)

  unfoldable pub parse_options : Option V → Result CborError Options
  parse_options none = ok (record { rk = none; up = none; uv = none })
  parse_options (some v) = as_map v "options" >>= λ m.
      ok (record { rk = flag m "rk"; up = flag m "up"; uv = flag m "uv" })

  abbrev pub kind_or_default : Option String → String
  kind_or_default none = "public-key"
  kind_or_default (some kind) = kind

  -- One round of the loop of `parse_descriptor_list`.
  abbrev pub parse_descriptor : String → V → Result CborError CredentialDescriptor
  parse_descriptor what item = as_map item what >>= λ m.
      transpose (λ v. as_bytes v "a credential id") (field m "id") >>= λ found.
      ok_or found (missing what) >>= λ id.
      ok (record { id = id; kind = kind_or_default (text_field m "type") })

  abbrev pub parse_descriptors : String → List V → Result CborError (List CredentialDescriptor)
  parse_descriptors what [] = ok []
  parse_descriptors what (item ∷ items) =
      parse_descriptor what item >>= λ d. parse_descriptors what items >>= λ ds. ok (d ∷ ds)

  unfoldable pub parse_descriptor_list :
      Option V → String → Result CborError (List CredentialDescriptor)
  parse_descriptor_list none what = ok []
  parse_descriptor_list (some v) what =
      ok_or (found_array v) (wrong_type what) >>= λ items. parse_descriptors what items

  abbrev pub is_false_or_null : V → Bool
  is_false_or_null v = (is_null v) || is_false (found_bool v)
    where
      is_false : Option Bool → Bool
      is_false (some false) = true
      is_false _ = false

  unfoldable pub wants_hmac_secret : Option V → Bool
  wants_hmac_secret none = false
  wants_hmac_secret (some v) = wants (found_map v)
    where
      wants : Option (List (V × V)) → Bool
      wants none = false
      wants (some m) =
          any (λ e. is_name "hmac-secret" (found_text e.0) && not (is_false_or_null e.1)) m

  -- `if let Some((_, Value::Integer(alg)))`: other parameters are passed over.
  abbrev pub add_algorithm : Option ℤ → List ℤ → List ℤ
  add_algorithm none algorithms = algorithms
  add_algorithm (some alg) algorithms = as_i64 alg ∷ algorithms

  abbrev pub parse_algorithms : List V → Result CborError (List ℤ)
  parse_algorithms [] = ok []
  parse_algorithms (p ∷ params) = as_map p "pubKeyCredParams" >>= λ m.
      parse_algorithms params >>= λ algorithms.
      ok (add_algorithm (found_in found_integer (field m "alg")) algorithms)
