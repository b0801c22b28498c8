-- ===== src/Ctap/Cbor/Keys.antt =====
-- A parameter map has one reading, and what it says is what was sent.
use blackbag.Common.{◌≡◌, false, some, List, [], ◌∷◌, ◌++◌}
use blackbag.Common.Bytes.{Bytes}
use blackbag.Common.Int.{ℤ}
use blackbag.Ctap.Cbor.{Values, seen_key}

module _ {V : Type 0} where
  -- No key is there twice.
  abbrev pub HasOneReading : List (ℤ × V) → Type 0
  HasOneReading [] = Unit {0}
  HasOneReading (e ∷ es) = (seen_key e.0 es ≡ false) × HasOneReading es

module _ {V : Type 0} (values : Values V) where
  -- The entries of a map that was sent, their keys read as integers.
  pub data Reads : List (V × V) → List (ℤ × V) → Type 0 where
    none_read : Reads [] []
    one_read :
        (k v : V) (key : ℤ) (entries : List (V × V)) (m : List (ℤ × V))
        → values.found_integer k ≡ some key
        → Reads entries m
        → Reads ((k, v) ∷ entries) ((key, v) ∷ m)

  abbrev pub IsRead : List (ℤ × V) → List (V × V) → List (ℤ × V) → Type 0
  IsRead out entries m =
      (read : List (ℤ × V)) × (m ≡ out ++ read) × Reads entries read × HasOneReading m

  -- What was sent, when `map_of` accepts it.
  abbrev pub WasSent : Bytes → List (ℤ × V) → Type 0
  WasSent [] m = m ≡ []
  WasSent (b ∷ bytes) m =
      (value : V) × (entries : List (V × V)) × (values.from_reader (b ∷ bytes) ≡ some value)
      × (values.found_map value ≡ some entries)
      × Reads entries m
