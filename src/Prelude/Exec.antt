-- ===== src/Prelude/Exec.antt =====
-- Code with a state, C++ exceptions and undefined behaviour.
use mathlib.Core.Option.{Option, none, some}

-- `fault` is undefined behaviour: nothing is said of what follows.
pub data Outcome {ℓ} (A : Type ℓ) : Type ℓ where
  returns : A → Outcome A
  throws fault : Outcome A

abbrev pub Exec : Type 0 → Type 0 → Type 0
Exec S A = S → Outcome A × S

module _ {S : Type 0} where
  abbrev pub pure : {A : Type 0} → A → Exec S A
  pure a s = (returns a, s)

  abbrev pub then_run : {A B : Type 0} → (A → Exec S B) → Outcome A × S → Outcome B × S
  then_run f (returns a, s) = f a s
  then_run f (throws, s) = (throws, s)
  then_run f (fault, s) = (fault, s)

  infixl 5 ◌>>=◌ ◌>>◌
  abbrev pub ◌>>=◌ : {A B : Type 0} → Exec S A → (A → Exec S B) → Exec S B
  ◌>>=◌ m f s = then_run f (m s)

  abbrev pub ◌>>◌ : {A B : Type 0} → Exec S A → Exec S B → Exec S B
  ◌>>◌ m k = m >>= λ _. k

  -- A step that neither throws nor faults.
  abbrev pub lift : {A : Type 0} → (S → A × S) → Exec S A
  lift f s = (returns (f s).0, (f s).1)

  abbrev pub gets : {A : Type 0} → (S → A) → Exec S A
  gets f s = (returns (f s), s)

  -- `none` is an exception, or undefined behaviour.
  abbrev pub or_throw : {A : Type 0} → Option A → Exec S A
  or_throw none s = (throws, s)
  or_throw (some a) s = (returns a, s)

  abbrev pub or_fault : {A : Type 0} → Option A → Exec S A
  or_fault none s = (fault, s)
  or_fault (some a) s = (returns a, s)

  -- What a call of another object does.
  abbrev pub of_outcome : {A : Type 0} → Outcome A → Exec S A
  of_outcome o s = (o, s)

  -- try { m } catch (const std::exception&) { h }
  abbrev pub recover : {A : Type 0} → Exec S A → Outcome A × S → Outcome A × S
  recover h (returns a, s) = (returns a, s)
  recover h (throws, s) = h s
  recover h (fault, s) = (fault, s)

  abbrev pub catch : {A : Type 0} → Exec S A → Exec S A → Exec S A
  catch m h s = recover h (m s)
