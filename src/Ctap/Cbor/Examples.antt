-- ===== src/Ctap/Cbor/Examples.antt =====
-- Values that are numbers, strings and flat tables; a byte string is read as the table of its bytes.
use blackbag.Common.{ℕ, ◌≡◌, refl, false, Option, none, some, List, [], ◌∷◌, map as map_list}
use blackbag.Common.Bytes.{Bytes}
use blackbag.Common.Int.{ℤ, pos, negsuc}
use blackbag.Common.Result.{err}
use blackbag.Ctap.Cbor.{Values, as_i64, map_of, map_entries, duplicate_key}
use blackbag.Ctap.Cbor.Responses.{sort_by_key}

pub data Flat : Type 0 where
  number : ℤ → Flat
  word : Bytes → Flat
  table : List (ℤ × ℕ) → Flat

abbrev flat_number : Flat → Option ℤ
flat_number (number n) = some n
flat_number _ = none

abbrev flat_word : Flat → Option Bytes
flat_word (word w) = some w
flat_word _ = none

abbrev flat_table : Flat → Option (List (Flat × Flat))
flat_table (table es) = some (map_list (λ e. (number e.0, word (e.1 ∷ []))) es)
flat_table _ = none

abbrev pub flat : Values Flat
flat = record {
  from_reader = λ bytes. some (table (map_list (λ b. (pos b, b)) bytes));
  into_writer = λ v. some [];
  found_integer = flat_number;
  found_bytes = flat_word;
  found_text = λ v. none;
  found_bool = λ v. none;
  found_array = λ v. none;
  found_map = flat_table;
  is_null = λ v. false;
  integer_value = number;
  bytes_value = word;
  text_value = λ t. word [];
  bool_value = λ b. number (pos 0);
  array_value = λ vs. word [];
  map_value = λ es. table [];
}

-- A key that is there twice is refused.
map_of-duplicate : map_of flat (1 ∷ 2 ∷ 1 ∷ []) ≡ err (duplicate_key (pos 1))
unfolding map_of map_entries
map_of-duplicate = refl

-- An algorithm number that does not fit 64 bits is read as another one: here -7, ES256.
as_i64-wraps : as_i64 (pos 18446744073709551609) ≡ negsuc 6
as_i64-wraps = refl

abbrev two_keys : List (ℤ × Flat)
two_keys = (pos 1, word (1 ∷ [])) ∷ (pos 2, word (2 ∷ [])) ∷ []

sorted_map_keys :
    sort_by_key ((pos 3, word []) ∷ (negsuc 6, word (1 ∷ [])) ∷ (negsuc 6, word (2 ∷ [])) ∷ [])
    ≡ (negsuc 6, word (1 ∷ [])) ∷ (negsuc 6, word (2 ∷ [])) ∷ (pos 3, word []) ∷ []
sorted_map_keys = refl
