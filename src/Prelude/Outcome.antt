-- ===== src/Prelude/Outcome.antt =====
-- Go's `(value, error)` results. A method with a pointer receiver is a function of the receiver's
-- state; the new state comes back beside an error too, so what was written before it is kept.
use mathlib.Core.Bool.{Bool, true, false}
use mathlib.Core.Path.{◌≡◌, refl, ap}
use mathlib.Core.Option.{Option, none, some}
use unbelievable_fish.Prelude.Tests.{if◌then◌else◌}

pub data Result (E A : Type 0) : Type 0 where
  ok : A → Result E A
  err : E → Result E A

abbrev pub Method : Type 0 → Type 0 → Type 0 → Type 0
Method E S A = S → S × Result E A

module _ {E A : Type 0} where
  abbrev pub is_ok : Result E A → Bool
  is_ok (ok _) = true
  is_ok (err _) = false

  abbrev pub Succeeds : Result E A → Type 0
  Succeeds r = is_ok r ≡ true

module _ {E S A : Type 0} where
  -- `return x, nil`
  abbrev pub pure : A → Method E S A
  pure a s = (s, ok a)

  -- `return nil, e`
  abbrev pub raise : E → Method E S A
  raise e s = (s, err e)

  abbrev pub gets : (S → A) → Method E S A
  gets f s = (s, ok (f s))

  -- A call of a pure function that may return an error.
  abbrev pub lift : Result E A → Method E S A
  lift (ok a) s = (s, ok a)
  lift (err e) s = (s, err e)

  -- A method that tests its receiver for nil first.
  abbrev pub unless_nil : E → Method E S A → Method E (Option S) A
  unless_nil e m none = (none, err e)
  unless_nil e m (some s) = let (s', r) = m s in (some s', r)

module _ {E S : Type 0} where
  abbrev pub modify : (S → S) → Method E S (Unit {0})
  modify f s = (f s, ok tt)

  -- `if c { return nil, e }`
  abbrev pub fail_if : Bool → E → Method E S (Unit {0})
  fail_if c e s = (s, if c then err e else ok tt)

infixl 5 ◌>>=◌ ◌>>◌
abbrev pub ◌>>=◌ : {E S A B : Type 0} → Method E S A → (A → Method E S B) → Method E S B
◌>>=◌ m f s = let (s', r) = m s in elim r [ ok a ↦ f a s' | err e ↦ (s', err e) ]

abbrev pub ◌>>◌ : {E S A B : Type 0} → Method E S A → Method E S B → Method E S B
m >> k = m >>= λ _. k

-- `if c { return e }` in a function without a receiver, and what follows it.
infixl 5 ◌then_also◌
abbrev pub ◌then_also◌ : {E A B : Type 0} → Result E A → Result E B → Result E B
ok _ then_also k = k
err e then_also k = err e

abbrev pub check : {E : Type 0} → Bool → E → Result E (Unit {0})
check c e = if c then err e else ok tt

-- A guard that is passed.
module _ {E S A : Type 0} where
  pub fail_if_passed :
      (c : Bool) (e : E) (m : Method E S A) (s : S)
      → Succeeds ((fail_if c e >> m) s).1
      → (c ≡ false) × ((fail_if c e >> m) s ≡ m s) × Succeeds (m s).1
  fail_if_passed true e m s h = cc
  fail_if_passed false e m s h = (refl, refl, h)

-- A chain of checks that is passed.
module _ {E A : Type 0} where
  pub check_passed :
      (r : Result E A) (c : Bool) (e : E)
      → Succeeds (r then_also check c e)
      → Succeeds r × (c ≡ false)
  check_passed (ok a) true e h = cc
  check_passed (ok a) false e h = (refl, refl)
  check_passed (err d) c e h = cc

module _ {E A B : Type 0} where
  pub result_reached : (r : Result E A) (x y : B) → (r then_also ok x) ≡ ok y → Succeeds r × (x ≡ y)
  result_reached (ok a) x y h = (refl, cc)
  result_reached (err e) x y h = cc

-- A call that succeeded on the way.
module _ {E S A B : Type 0} where
  pub lift_passed :
      (r : Result E A) (f : A → Method E S B) (s : S)
      → Succeeds ((lift r >>= f) s).1
      → (a : A) × (r ≡ ok a) × ((lift r >>= f) s ≡ f a s) × Succeeds (f a s).1
  lift_passed (ok a) f s h = (a, refl, refl, h)
  lift_passed (err e) f s h = cc

-- A call that returned on the way, and one that failed.
pub bind_ok :
    {E S A B : Type 0} (m : Method E S A) (f : A → Method E S B) (s s' : S) (a : A)
    → m s ≡ (s', ok a)
    → (m >>= f) s ≡ f a s'
bind_ok m f s s' a e = ap (λ p. let (x, r) = p in elim r [ ok y ↦ f y x | err d ↦ (x, err d) ]) e

pub bind_err :
    {E S A B : Type 0} (m : Method E S A) (f : A → Method E S B) (s s' : S) (d : E)
    → m s ≡ (s', err d)
    → (m >>= f) s ≡ (s', err d)
bind_err m f s s' d e = ap (λ p. let (x, r) = p in elim r [ ok y ↦ f y x | err c ↦ (x, err c) ]) e

pub if_same {ℓ} : {A : Type ℓ} (b : Bool) (x : A) → (if b then x else x) ≡ x
if_same true x = refl
if_same false x = refl
