-- ===== src/Ctap/Cbor/Requests.antt =====
-- The parsing of whole requests in crates/blackbag-core/src/ctap/cbor.rs.
use blackbag.Common.{ℕ, ◌==◌, Option, List, [], ◌∷◌, if◌then◌else◌, length}
use blackbag.Common.Bytes.{Bytes}
use blackbag.Common.Int.{ℤ, pos}
use blackbag.Common.Result.{Result, ok, err, ensure, ok_or, ◌>>=◌, ◌>>◌}
use blackbag.Ctap.Cbor.{
  CborError, empty_command, no_params, bad_hash_length, missing, Values, RelyingParty, User,
  MakeCredential, GetAssertion, Request, make_credential_request, get_assertion_request,
  get_info_request, get_next_assertion, selection, client_pin, reset, unknown, take, transpose,
  map_of, as_bytes, as_text, as_map, field, text_field, found_in, parse_options,
  parse_descriptor_list, wants_hmac_secret, parse_algorithms,
}

module _ {V : Type 0} (values : Values V) where
  open values use {found_array}

  abbrev pub parse_rp : List (ℤ × V) → Result CborError RelyingParty
  parse_rp m = ok_or (take m (pos 2)) (missing "rp") >>= λ v. as_map values v "rp" >>= λ rp_map.
      ok_or (text_field values rp_map "id") (missing "rp.id") >>= λ id.
      ok (record { id = id; name = text_field values rp_map "name" })

  abbrev pub parse_user : List (ℤ × V) → Result CborError User
  parse_user m = ok_or (take m (pos 3)) (missing "user") >>= λ v.
      as_map values v "user" >>= λ user_map.
      transpose (λ v. as_bytes values v "the user handle") (field values user_map "id") >>= λ found.
      ok_or found (missing "user.id") >>= λ id. ok (record {
        id = id;
        name = text_field values user_map "name";
        display_name = text_field values user_map "displayName";
      })

  -- The hash of the client's data, under the given key.
  abbrev pub parse_hash : List (ℤ × V) → ℤ → Result CborError Bytes
  parse_hash m key = ok_or (take m key) (missing "clientDataHash") >>= λ v.
      as_bytes values v "clientDataHash" >>= λ hash.
      ensure (length hash == 32) bad_hash_length >> ok hash

  abbrev pub parse_pin : List (ℤ × V) → ℤ → Result CborError (Option Bytes)
  parse_pin m key = transpose (λ v. as_bytes values v "pinUvAuthParam") (take m key)

  unfoldable pub parse_make_credential : Bytes → Result CborError MakeCredential
  parse_make_credential bytes = map_of values bytes >>= λ m.
      parse_hash m (pos 1) >>= λ client_data_hash. parse_rp m >>= λ rp. parse_user m >>= λ user.
      ok_or (found_in values found_array (take m (pos 4))) no_params >>= λ params.
      parse_algorithms values params >>= λ algorithms.
      parse_descriptor_list values (take m (pos 5)) "excludeList" >>= λ exclude_list.
      parse_options values (take m (pos 7)) >>= λ options. parse_pin m (pos 8) >>= λ pin.
      ok (record {
        client_data_hash = client_data_hash;
        rp = rp;
        user = user;
        algorithms = algorithms;
        exclude_list = exclude_list;
        options = options;
        hmac_secret = wants_hmac_secret values (take m (pos 6));
        pin_uv_auth_param = pin;
      })

  unfoldable pub parse_get_assertion : Bytes → Result CborError GetAssertion
  parse_get_assertion bytes = map_of values bytes >>= λ m.
      ok_or (take m (pos 1)) (missing "rpId") >>= λ v. as_text values v "rpId" >>= λ rp_id.
      parse_hash m (pos 2) >>= λ client_data_hash.
      parse_descriptor_list values (take m (pos 3)) "allowList" >>= λ allow_list.
      parse_options values (take m (pos 5)) >>= λ options. parse_pin m (pos 6) >>= λ pin.
      ok (record {
        rp_id = rp_id;
        client_data_hash = client_data_hash;
        allow_list = allow_list;
        options = options;
        pin_uv_auth_param = pin;
      })

  unfoldable pub parse_command : ℕ → Bytes → Result CborError Request
  parse_command cmd rest =
      if cmd == 0x04
      then ok get_info_request
      else if cmd == 0x08
      then ok get_next_assertion
      else if cmd == 0x0b
      then ok selection
      else if cmd == 0x06
      then ok client_pin
      else if cmd == 0x07
      then ok reset
      else if cmd == 0x01
      then (parse_make_credential rest >>= λ req. ok (make_credential_request req))
      else if cmd == 0x02
      then (parse_get_assertion rest >>= λ req. ok (get_assertion_request req))
      else ok (unknown cmd)

  unfoldable pub parse_request : Bytes → Result CborError Request
  parse_request [] = err empty_command
  parse_request (cmd ∷ rest) = parse_command cmd rest
