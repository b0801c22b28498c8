-- ===== src/Common/Assoc.antt =====
-- A map with number keys as an association list: the operations of `HashMap<u32, V>` that the
-- program uses. Iteration order is never observed by it.
use Prim.Native.Nat.{ℕ, ◌+◌, ◌≤◌}
use mathlib.Core.Path.{◌≡◌, refl, subst}
use mathlib.Core.Logic.{inl, inr}
use mathlib.Core.Bool.{Bool, true, false, ◌||◌}
use mathlib.Core.List.{List, [], ◌∷◌}
use mathlib.Core.Option.{Option, none, some}
use native.Mathlib.Omega.{arith}
use blackbag.Common.Tests.{◌==◌, ==_iff, Bool-cases, if◌then◌else◌}
use blackbag.Common.Lists.{length, All}

abbrev pub Assoc {ℓ} : Type ℓ → Type ℓ
Assoc V = List (ℕ × V)

abbrev pub is_some {ℓ} : {A : Type ℓ} → Option A → Bool
is_some none = false
is_some (some a) = true

pair_eq {ℓ} : {V : Type ℓ} (a b : ℕ) (v w : V) → a ≡ b → v ≡ w → ◌≡◌ {A = ℕ × V} (a, v) (b, w)
pair_eq a b v w p q = cc

module _ {ℓ} {V : Type ℓ} where
  unfoldable pub get : ℕ → Assoc V → Option V
  get k [] = none
  get k ((j, v) ∷ m) = if j == k then some v else get k m

  unfoldable pub contains_key : ℕ → Assoc V → Bool
  contains_key k [] = false
  contains_key k ((j, v) ∷ m) = j == k || contains_key k m

  unfoldable pub remove : ℕ → Assoc V → Assoc V
  remove k [] = []
  remove k ((j, v) ∷ m) = let rest = remove k m in if j == k then rest else (j, v) ∷ rest

  unfoldable pub insert : ℕ → V → Assoc V → Assoc V
  insert k v [] = (k, v) ∷ []
  insert k v ((j, w) ∷ m) = if j == k then (k, v) ∷ m else (j, w) ∷ insert k v m

  pub get-remove : (k j : ℕ) (m : Assoc V) → get j (remove k m) ≡ (if k == j then none else get j m)
  unfolding get remove
  get-remove k j [] = ground arith
  get-remove k j ((i, v) ∷ m) = ground (arith, get-remove k j m)

  pub get-insert :
      (k j : ℕ) (v : V) (m : Assoc V) → get j (insert k v m) ≡ (if k == j then some v else get j m)
  unfolding get insert
  get-insert k j v [] = refl
  get-insert k j v ((i, w) ∷ m) = ground (arith, get-insert k j v m)

  pub contains_key-get : (k : ℕ) (m : Assoc V) → contains_key k m ≡ is_some (get k m)
  unfolding get contains_key
  contains_key-get k [] = refl
  contains_key-get k ((j, v) ∷ m) = ground (arith, contains_key-get k m)

  pub length-remove : (k : ℕ) (m : Assoc V) → length (remove k m) ≤ length m
  unfolding remove
  length-remove k [] = omega arith
  length-remove k ((j, v) ∷ m) = ground (arith, length-remove k m)

  pub length-insert :
      (k : ℕ) (v : V) (m : Assoc V)
      → length (insert k v m) ≡ (if contains_key k m then length m else length m + 1)
  unfolding insert contains_key
  length-insert k v [] = omega arith
  length-insert k v ((j, w) ∷ m) = ground (arith, length-insert k v m)

  -- `P` at every entry.
  pub All-remove {κ} : (P : ℕ × V → Type κ) (k : ℕ) (m : Assoc V) → All P m → All P (remove k m)
  unfolding remove
  All-remove P k [] h = h
  All-remove P k ((j, v) ∷ m) (hx, hm) =
      elim (j == k) as (λ b. All P (if b then remove k m else (j, v) ∷ remove k m)) [
        | true ↦ All-remove P k m hm
        | false ↦ (hx, All-remove P k m hm)
      ]

  pub All-insert {κ} :
      (P : ℕ × V → Type κ) (k : ℕ) (v : V) (m : Assoc V) → P (k, v) → All P m → All P (insert k v m)
  unfolding insert
  All-insert P k v [] h hm = (h, tt)
  All-insert P k v ((j, w) ∷ m) h (hx, hm) =
      elim (j == k) as (λ b. All P (if b then (k, v) ∷ m else (j, w) ∷ insert k v m)) [
        | true ↦ (h, hm)
        | false ↦ (hx, All-insert P k v m h hm)
      ]

  pub All-get {κ} :
      (P : ℕ × V → Type κ) (k : ℕ) (v : V) (m : Assoc V) → All P m → get k m ≡ some v → P (k, v)
  unfolding get
  All-get P k v [] h e = cc
  All-get P k v ((j, w) ∷ m) (hx, hm) e = elim (Bool-cases (j == k)) [
    | inl same ↦
        subst (λ (x : ℕ × V). P x) (pair_eq _ _ _ _ ((==_iff j k).0 same) (ground arith)) hx
    | inr other ↦ All-get P k v m hm (ground arith)
  ]

-- No key stands twice.
abbrev pub Unique {ℓ} : {V : Type ℓ} → Assoc V → Type 0
Unique [] = Unit {0}
Unique ((k, v) ∷ m) = (contains_key k m ≡ false) × Unique m

module _ {ℓ} {V : Type ℓ} where
  contains_key-remove :
      (k j : ℕ) (m : Assoc V)
      → contains_key j (remove k m) ≡ (if k == j then false else contains_key j m)
  unfolding contains_key remove
  contains_key-remove k j [] = ground arith
  contains_key-remove k j ((i, v) ∷ m) = ground (arith, contains_key-remove k j m)

  contains_key-insert :
      (k j : ℕ) (v : V) (m : Assoc V)
      → contains_key j (insert k v m) ≡ (if k == j then true else contains_key j m)
  unfolding contains_key insert
  contains_key-insert k j v [] = ground arith
  contains_key-insert k j v ((i, w) ∷ m) = ground (arith, contains_key-insert k j v m)

  pub Unique-remove : (k : ℕ) (m : Assoc V) → Unique m → Unique (remove k m)
  unfolding remove
  Unique-remove k [] h = h
  Unique-remove k ((j, v) ∷ m) (hj, hm) =
      elim (j == k) as (λ b. Unique (if b then remove k m else (j, v) ∷ remove k m)) [
        | true ↦ Unique-remove k m hm
        | false ↦ (ground (arith, contains_key-remove k j m), Unique-remove k m hm)
      ]

  pub Unique-insert : (k : ℕ) (v : V) (m : Assoc V) → Unique m → Unique (insert k v m)
  unfolding insert contains_key
  Unique-insert k v [] h = (refl, tt)
  Unique-insert k v ((j, w) ∷ m) (hj, hm) = elim (Bool-cases (j == k)) [
    | inl same ↦ rw same (rw ((==_iff j k).0 same) at hj, hm)
    | inr other ↦ rw other (ground (arith, contains_key-insert k j v m), Unique-insert k v m hm)
  ]
