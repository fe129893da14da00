-- ===== src/Base/Effects.antt =====
-- Code with effects on an environment `S`. A function of the program ends in one of four ways: with
-- a value, by an early return that reports failure, by an exception that leaves it, or, in the model
-- only, because the fuel of a loop without bound ran out. The environment comes back in each case.
use mathlib.Core.Bool.{Bool, true, false}
use mathlib.Core.Option.{Option, none, some}

pub data Result {ℓ} (A : Type ℓ) : Type ℓ where
  ok : A → Result A
  failed : Result A
  thrown : Result A
  spent : Result A

abbrev pub Run {ℓ} : Type ℓ → Type ℓ → Type ℓ
Run S A = S → Result A × S

module _ {ℓ} {A : Type ℓ} where
  abbrev settle : A → Result A → Result A
  settle d failed = ok d
  settle d (ok a) = ok a
  settle d thrown = thrown
  settle d spent = spent

  abbrev as_option : Result A → Result (Option A)
  as_option failed = ok none
  as_option (ok a) = ok (some a)
  as_option thrown = thrown
  as_option spent = spent

module _ {ℓ} {S A : Type ℓ} where
  abbrev pub pure : A → Run S A
  pure a s = (ok a, s)

  abbrev pub fail : Run S A
  fail s = (failed, s)

  abbrev pub throw : Run S A
  throw s = (thrown, s)

  -- What code on another state ended with.
  abbrev pub lift : Result A → Run S A
  lift r s = (r, s)

  -- A call of the environment that always returns.
  abbrev pub call : (S → A × S) → Run S A
  call f s = let (a, s') = f s in (ok a, s')

  -- A pointer that is null, or a value that is absent: the function returns its failure value.
  abbrev pub need : Option A → Run S A
  need none = fail
  need (some a) = pure a

  -- The same where the absence is an exception.
  abbrev pub need_or_throw : Option A → Run S A
  need_or_throw none = throw
  need_or_throw (some a) = pure a

  -- The caller's reading of a failure value.
  abbrev pub or_value : A → Run S A → Run S A
  or_value d m s = let (r, s') = m s in (settle d r, s')

  abbrev pub attempt : Run S A → Run S (Option A)
  attempt m s = let (r, s') = m s in (as_option r, s')

module _ {ℓ} {S A B : Type ℓ} where
  abbrev pub continue : Result A → (A → Run S B) → Run S B
  continue (ok a) f s = f a s
  continue failed f s = (failed, s)
  continue thrown f s = (thrown, s)
  continue spent f s = (spent, s)

  infixl 5 ◌>>=◌
  abbrev pub ◌>>=◌ : Run S A → (A → Run S B) → Run S B
  ◌>>=◌ m f s = let (r, s') = m s in continue r f s'

infixl 5 ◌>>◌
abbrev pub ◌>>◌ {ℓ} : {S A B : Type ℓ} → Run S A → Run S B → Run S B
m >> k = m >>= λ _. k

module _ {S : Type 0} where
  -- A call of the environment with no result.
  abbrev pub effect : (S → S) → Run S (Unit {0})
  effect f s = (ok tt, f s)

  abbrev pub ensure : Bool → Run S (Unit {0})
  ensure true = pure tt
  ensure false = fail
