-- ===== src/Session/Step.antt =====
-- Handlers in `&mut self` that return `Result`: what was changed before an error stays changed.
use blackbag.Common.{Bool, true, false}
use blackbag.Common.Result.{Result, ok, err}

-- `E` are the errors, `S` is the state.
abbrev pub Step : Type 0 → Type 0 → Type 0 → Type 0
Step E S A = S → S × Result E A

module _ {E S : Type 0} where
  unfoldable pub pure : {A : Type 0} → A → Step E S A
  pure a s = (s, ok a)

  -- `bail!`
  unfoldable pub fail : {A : Type 0} → E → Step E S A
  fail e s = (s, err e)

  unfoldable pub lift : {A : Type 0} → Result E A → Step E S A
  lift r s = (s, r)

  unfoldable pub gets : {A : Type 0} → (S → A) → Step E S A
  gets f s = (s, ok (f s))

  unfoldable pub modify : (S → S) → Step E S (Unit {0})
  modify f s = (f s, ok tt)

  -- `?`
  abbrev pub continue : {A B : Type 0} → S × Result E A → (A → Step E S B) → S × Result E B
  continue (s, ok a) f = f a s
  continue (s, err e) f = (s, err e)

  infixl 10 ◌>>=◌ ◌>>◌
  unfoldable pub ◌>>=◌ : {A B : Type 0} → Step E S A → (A → Step E S B) → Step E S B
  ◌>>=◌ m f s = continue (m s) f

  abbrev pub ◌>>◌ : {A B : Type 0} → Step E S A → Step E S B → Step E S B
  m >> n = m >>= λ _. n

  -- `if test { m }`
  abbrev pub when : Bool → Step E S (Unit {0}) → Step E S (Unit {0})
  when true m = m
  when false m = pure tt
