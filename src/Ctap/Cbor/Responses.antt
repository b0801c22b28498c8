-- ===== src/Ctap/Cbor/Responses.antt =====
-- The building of responses in crates/blackbag-core/src/ctap/cbor.rs.
use blackbag.Common.{
  ℕ, ◌==◌, ◌^◌, ◌≡◌, Bool, true, ◌&&◌, ltb, Option, none, some, List, [], ◌∷◌, if◌then◌else◌,
  map as map_list,
}
use blackbag.Common.Bytes.{Bytes}
use blackbag.Common.Int.{ℤ, pos, negsuc, int_leb}
use blackbag.Common.Result.{Result, ok, ok_or, ◌>>=◌}
use blackbag.Ctap.Cbor.{CborError, not_written, Values}

-- Whether the conversion of a key to a CBOR integer succeeds: from -2 ^ 64 to 2 ^ 64 - 1.
abbrev pub is_small : ℤ → Bool
is_small (pos n) = ltb n (2 ^ 64)
is_small (negsuc n) = ltb n (2 ^ 64)

module _ {V : Type 0} where
  abbrev pub are_small : List (ℤ × V) → Bool
  are_small [] = true
  are_small (e ∷ es) = is_small e.0 && are_small es

  -- `sort_by_key`, which is stable.
  abbrev pub insert_by_key : ℤ × V → List (ℤ × V) → List (ℤ × V)
  insert_by_key e [] = e ∷ []
  insert_by_key e (x ∷ xs) =
      let rest = insert_by_key e xs in if int_leb e.0 x.0 then e ∷ x ∷ xs else x ∷ rest

  abbrev pub sort_by_key : List (ℤ × V) → List (ℤ × V)
  sort_by_key [] = []
  sort_by_key (e ∷ es) = insert_by_key e (sort_by_key es)

module _ {V : Type 0} (values : Values V) where
  open values use {into_writer, integer_value, map_value}

  abbrev pub integer_key : ℤ × V → V × V
  integer_key (k, v) = (integer_value k, v)

  -- `expect("CTAP keys are small")`: no key makes the source panic.
  unfoldable pub map : (entries : List (ℤ × V)) → are_small entries ≡ true → V
  map entries small = map_value (map_list integer_key (sort_by_key entries))

  -- The body is written after the status, when the status is OK and there is one.
  unfoldable pub response : ℕ → Option V → Result CborError Bytes
  response status none = ok (status ∷ [])
  response status (some value) =
      if status == 0
      then (ok_or (into_writer value) not_written >>= λ body. ok (status ∷ body))
      else ok (status ∷ [])
