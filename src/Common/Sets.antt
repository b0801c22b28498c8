-- ===== src/Common/Sets.antt =====
-- A `HashSet` as a list without repetition, over a Boolean equality: the operations of it that the
-- program uses, and their laws.
use mathlib.Core.Path.{◌≡◌, refl, ap, subst}
use mathlib.Core.Logic.{◌↔◌, inl, inr}
use mathlib.Core.Bool.{Bool, true, false, not, ◌||◌, ◌&&◌}
use mathlib.Core.List.{List, [], ◌∷◌}
use native.Mathlib.Omega.{arith}
use blackbag.Common.Tests.{Bool-cases, if◌then◌else◌}
use blackbag.Common.Lists.{filter}

module _ {ℓ} {A : Type ℓ} (eq : A → A → Bool) where
  unfoldable pub member : A → List A → Bool
  member a [] = false
  member a (x ∷ xs) = eq x a || member a xs

  unfoldable pub set_insert : A → List A → List A
  set_insert a xs = if member a xs then xs else a ∷ xs

  unfoldable pub set_remove : A → List A → List A
  set_remove a xs = filter (λ x. not (eq x a)) xs

  -- No element stands twice.
  abbrev pub IsDuplicateFree : List A → Type 0
  IsDuplicateFree [] = Unit {0}
  IsDuplicateFree (x ∷ xs) = (member x xs ≡ false) × IsDuplicateFree xs

module _ {ℓ} {A : Type ℓ} (eq : A → A → Bool) (eq_iff : (a b : A) → (eq a b ≡ true) ↔ (a ≡ b)) where
  eq_sound : (a b : A) → eq a b ≡ true → a ≡ b
  eq_sound a b = (eq_iff a b).0

  pub member-set_insert :
      (a b : A) (xs : List A) → member eq b (set_insert eq a xs) ≡ (eq a b || member eq b xs)
  unfolding member set_insert
  member-set_insert a b xs = elim (Bool-cases (member eq a xs)) [
    | inl old ↦ elim (Bool-cases (eq a b)) [
      | inl same ↦ rw (old, same) (subst (λ c. member eq c xs ≡ true) (eq_sound a b same) old)
      | inr other ↦ rw (old, other) refl
    ]
    | inr fresh ↦ rw fresh refl
  ]

  pub member-filter :
      (p : A → Bool) (a : A) (xs : List A) → member eq a (filter p xs) ≡ (p a && member eq a xs)
  unfolding member
  member-filter p a [] = ground arith
  member-filter p a (x ∷ xs) = elim (Bool-cases (eq x a)) [
    | inl same ↦
        let h : p x ≡ p a = ap p (eq_sound x a same) in
        ground (arith, same, h, member-filter p a xs)
    | inr other ↦ ground (arith, other, member-filter p a xs)
  ]

  pub member-set_remove :
      (a b : A) (xs : List A) → member eq b (set_remove eq a xs) ≡ (not (eq b a) && member eq b xs)
  unfolding set_remove
  member-set_remove a b xs = member-filter (λ x. not (eq x a)) b xs

  IsDuplicateFree-filter :
      (p : A → Bool) (xs : List A) → IsDuplicateFree eq xs → IsDuplicateFree eq (filter p xs)
  IsDuplicateFree-filter p [] h = h
  IsDuplicateFree-filter p (x ∷ xs) (hx, hxs) = elim (Bool-cases (p x)) [
    | inl kept ↦ rw kept (ground (arith, hx, member-filter p x xs), IsDuplicateFree-filter p xs hxs)
    | inr dropped ↦ rw dropped (IsDuplicateFree-filter p xs hxs)
  ]

  IsDuplicateFree-set_insert :
      (a : A) (xs : List A) → IsDuplicateFree eq xs → IsDuplicateFree eq (set_insert eq a xs)
  unfolding set_insert
  IsDuplicateFree-set_insert a xs h = elim (Bool-cases (member eq a xs)) [
    | inl old ↦ rw old h
    | inr fresh ↦ rw fresh (fresh, h)
  ]
