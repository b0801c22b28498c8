-- ===== src/Session/Keeps.antt =====
-- Reasoning on handlers: what holds after one, whether it returns or fails.
pub mod Parts
use blackbag.Common.{◌≡◌, refl, sym, subst, ◌∙◌, Bool, true, false, if◌then◌else◌}
use blackbag.Common.Result.{Result, ok, err}
use blackbag.Session.Step.{Step, continue, pure, fail, lift, gets, modify, when, ◌>>=◌}

module _ {E S : Type 0} where
  -- `F` after a failure, `Q` with the value otherwise.
  abbrev pub After : {A : Type 0} → (S → Type 0) → (A → S → Type 0) → S × Result E A → Type 0
  After F Q (s, ok a) = Q a s
  After F Q (s, err e) = F s

  -- From a state with `P`.
  pub record Triple {A : Type 0} (F P : S → Type 0) (m : Step E S A) (Q : A → S → Type 0)
      : Type 0 where
    pub at : (s : S) → P s → After F Q (m s)

  -- `m` keeps `P`, and leaves `F` when it fails.
  abbrev pub Keeps : {A : Type 0} → (S → Type 0) → (S → Type 0) → Step E S A → Type 0
  Keeps F P m = Triple F P m (λ a. P)

  continue-After :
      {A B : Type 0} {F : S → Type 0} {Q : A → S → Type 0} {R : B → S → Type 0} (r : S × Result E A)
      (f : A → Step E S B)
      → After F Q r
      → ((a : A) → Triple F (Q a) (f a) R)
      → After F R (continue r f)
  continue-After (s, ok a) f h k = (k a).at s h
  continue-After (s, err e) f h k = h

  pub Triple-bind :
      {A B : Type 0} {F P : S → Type 0} {Q : A → S → Type 0} {R : B → S → Type 0} (m : Step E S A)
      (f : A → Step E S B)
      → Triple F P m Q
      → ((a : A) → Triple F (Q a) (f a) R)
      → Triple F P (m >>= f) R
  unfolding ◌>>=◌
  Triple-bind m f tm tf = record { at = λ s p. continue-After (m s) f (tm.at s p) tf }

  pub Triple-step :
      {A B : Type 0} {F P : S → Type 0} {R : B → S → Type 0} (m : Step E S A) (f : A → Step E S B)
      → Keeps F P m
      → ((a : A) → Triple F P (f a) R)
      → Triple F P (m >>= f) R
  Triple-step = Triple-bind

  -- What follows a step that always fails is of no account.
  pub Triple-fails :
      {A B : Type 0} {F P : S → Type 0} {R : B → S → Type 0} (m : Step E S A) (f : A → Step E S B)
      → Triple F P m (λ a s. ⊥)
      → Triple F P (m >>= f) R
  Triple-fails m f h = Triple-bind m f h λ a. record { at = λ s p. elim p [ ] }

  pub Triple-pure :
      {A : Type 0} {F P : S → Type 0} {Q : A → S → Type 0} (a : A)
      → ((s : S) → P s → Q a s)
      → Triple F P (pure a) Q
  unfolding pure
  Triple-pure a h = record { at = h }

  pub Triple-fail :
      {A : Type 0} {F P : S → Type 0} {Q : A → S → Type 0} (e : E)
      → ((s : S) → P s → F s)
      → Triple F P (fail e) Q
  unfolding fail
  Triple-fail e h = record { at = h }

  pub Triple-gets :
      {A : Type 0} {F P : S → Type 0} {Q : A → S → Type 0} (f : S → A)
      → ((s : S) → P s → Q (f s) s)
      → Triple F P (gets f) Q
  unfolding gets
  Triple-gets f h = record { at = h }

  After-map :
      {A : Type 0} {F G : S → Type 0} {Q R : A → S → Type 0} (r : S × Result E A)
      → ((s : S) → F s → G s)
      → ((a : A) (s : S) → Q a s → R a s)
      → After F Q r
      → After G R r
  After-map (s, ok a) f q h = q a s h
  After-map (s, err e) f q h = f s h

  pub Triple-map :
      {A : Type 0} {F G P : S → Type 0} {Q R : A → S → Type 0} (m : Step E S A)
      → ((s : S) → F s → G s)
      → ((a : A) (s : S) → Q a s → R a s)
      → Triple F P m Q
      → Triple G P m R
  Triple-map m f q t = record { at = λ s p. After-map (m s) f q (t.at s p) }

  -- `m` leaves a part of the state as it is.
  pub record Leaves {A X : Type 0} (part : S → X) (m : Step E S A) : Type 0 where
    pub same : (s : S) → part (m s).0 ≡ part s

  continue-Leaves :
      {A B X : Type 0} (part : S → X) (r : S × Result E A) (f : A → Step E S B)
      → ((a : A) → Leaves part (f a))
      → part (continue r f).0 ≡ part r.0
  continue-Leaves part (s, ok a) f h = (h a).same s
  continue-Leaves part (s, err e) f h = refl

  module _ {X : Type 0} {part : S → X} where
    pub Leaves-bind :
        {A B : Type 0} (m : Step E S A) (f : A → Step E S B)
        → Leaves part m
        → ((a : A) → Leaves part (f a))
        → Leaves part (m >>= f)
    unfolding ◌>>=◌
    Leaves-bind m f lm lf = record { same = λ s. continue-Leaves part (m s) f lf ∙ lm.same s }

    pub Leaves-pure : {A : Type 0} (a : A) → Leaves part (pure a)
    unfolding pure
    Leaves-pure a = record { same = λ s. refl }

    pub Leaves-fail : {A : Type 0} (e : E) → Leaves {A = A} part (fail e)
    unfolding fail
    Leaves-fail e = record { same = λ s. refl }

    pub Leaves-lift : {A : Type 0} (r : Result E A) → Leaves part (lift r)
    unfolding lift
    Leaves-lift r = record { same = λ s. refl }

    pub Leaves-gets : {A : Type 0} (f : S → A) → Leaves part (gets f)
    unfolding gets
    Leaves-gets f = record { same = λ s. refl }

    pub Leaves-if :
        {A : Type 0} (b : Bool) (m n : Step E S A)
        → Leaves part m
        → Leaves part n
        → Leaves part (if b then m else n)
    Leaves-if true m n lm ln = lm
    Leaves-if false m n lm ln = ln

    pub Leaves-when : (b : Bool) (m : Step E S (Unit {0})) → Leaves part m → Leaves part (when b m)
    Leaves-when true m lm = lm
    Leaves-when false m lm = Leaves-pure tt

  -- From less.
  pub Triple-from :
      {A : Type 0} {F P G : S → Type 0} {Q : A → S → Type 0} (m : Step E S A)
      → ((s : S) → G s → P s)
      → Triple F P m Q
      → Triple F G m Q
  Triple-from m g t = record { at = λ s h. t.at s (g s h) }

  After-same :
      {A X : Type 0} (part : S → X) (D : X → Type 0) (F : S → Type 0) (r : S × Result E A) (x : X)
      → part r.0 ≡ x
      → ((s : S) → D (part s) → F s)
      → D x
      → After F (λ a s. D (part s)) r
  After-same part D F (s, ok a) x e f d = subst D (sym e) d
  After-same part D F (s, err _) x e f d = f s (subst D (sym e) d)

  -- A part that is left alone keeps what is true of it.
  pub Triple-Leaves :
      {A X : Type 0} (part : S → X) (D : X → Type 0) {F : S → Type 0} (m : Step E S A)
      → ((s : S) → D (part s) → F s)
      → Leaves part m
      → Keeps F (λ s. D (part s)) m
  Triple-Leaves part D {F = F} m f l = record {
    at = λ s d. After-same part D F (m s) _ (l.same s) f d;
  }

  module _ {F P : S → Type 0} where
    pub Triple-if :
        {A : Type 0} {Q : A → S → Type 0} (b : Bool) (m n : Step E S A)
        → Triple F P m Q
        → Triple F P n Q
        → Triple F P (if b then m else n) Q
    Triple-if true m n tm tn = tm
    Triple-if false m n tm tn = tn

  module _ {F P : S → Type 0} where
    pub Triple-when : (b : Bool) (m : Step E S (Unit {0})) → Keeps F P m → Keeps F P (when b m)
    Triple-when true m tm = tm
    Triple-when false m tm = Triple-pure tt λ s h. h

-- What is kept, of the state alone.
pub state_of : {E S A : Type 0} (P : S → Type 0) (r : S × Result E A) → After P (λ a. P) r → P r.0
state_of P (s, ok a) h = h
state_of P (s, err e) h = h

pub ruleset leaves_rules =
    (Leaves-bind, Leaves-pure, Leaves-fail, Leaves-lift, Leaves-gets, Leaves-if, Leaves-when)
