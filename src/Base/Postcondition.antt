-- ===== src/Base/Postcondition.antt =====
-- A property of every value that code returns, and of the value alone.
use mathlib.Core.Path.{◌≡◌, refl, sym, ap, ◌∙◌}
use mathlib.Core.Logic.{◌⊎◌, inl, inr}
use mathlib.Core.Option.{Option, none, some}
use mathlib.Core.Bool.{Bool, true, false}
use idsproject.Base.Logic.{if◌then◌else◌}
use idsproject.Base.Effects.{
  Result, ok, failed, thrown, spent, Run, continue, or_value, attempt, need_or_throw, ◌>>=◌,
}

pub record Ensures {ℓ} {S A : Type ℓ} (P : A → Type ℓ) (m : Run S A) : Type ℓ where
  pub at : (s : S) (a : A) → (m s).0 ≡ ok a → P a

module _ {ℓ} {S A B : Type ℓ} {P : B → Type ℓ} where
  after_bind :
      (r : Result A) (s : S) (f : A → Run S B)
      → ((a : A) → Ensures P (f a))
      → (b : B) → (continue r f s).0 ≡ ok b
      → P b
  after_bind (ok a) s f hf b e = (hf a).at s b e
  after_bind failed s f hf b e = cc
  after_bind thrown s f hf b e = cc
  after_bind spent s f hf b e = cc

  pub Ensures-bind :
      (m : Run S A) (f : A → Run S B) → ((a : A) → Ensures P (f a)) → Ensures P (m >>= f)
  Ensures-bind m f hf = record { at = λ s b e. after_bind (m s).0 (m s).1 f hf b e }

module _ {ℓ} {S A B : Type ℓ} where
  continue-eq-ok :
      (r : Result A) (t : S) (f : A → Run S B) {b : B} {s' : S}
      → continue r f t ≡ (ok b, s')
      → (a : A) × (r ≡ ok a) × (f a t ≡ (ok b, s'))
  continue-eq-ok (ok a) t f e = (a, refl, e)
  continue-eq-ok failed t f e = absurd (cc)
  continue-eq-ok thrown t f e = absurd (cc)
  continue-eq-ok spent t f e = absurd (cc)

  -- Code that returned a value ran its first part to a value, and the rest from there.
  pub bind-eq-ok :
      (m : Run S A) (f : A → Run S B) (s : S) {b : B} {s' : S}
      → (m >>= f) s ≡ (ok b, s')
      → (a : A) × ((m s).0 ≡ ok a) × (f a (m s).1 ≡ (ok b, s'))
  bind-eq-ok m f s e = continue-eq-ok (m s).0 (m s).1 f e

module _ {ℓ} {S A B : Type ℓ} where
  -- A first part that is known, with what runs behind it.
  pub bind_ok :
      (m : Run S A) (f : A → Run S B) (s : S) {a : A} {t : S}
      → m s ≡ (ok a, t)
      → (m >>= f) s ≡ f a t
  bind_ok m f s e = ap (λ x. continue x.0 f x.1) e

  -- What runs behind a first part that is known.
  pub bind_known :
      (m : Run S A) (f : A → Run S B) (s : S) {a : A} {t : S} {r : Result B × S}
      → m s ≡ (ok a, t)
      → (m >>= f) s ≡ r
      → f a t ≡ r
  bind_known m f s e h = sym (ap (λ x. continue x.0 f x.1) e) ∙ h

module _ {ℓ} {S A B : Type ℓ} where
  continue_value :
      (r : Result A) (t : S) (f : A → Run S B) {b : B}
      → (continue r f t).0 ≡ ok b
      → (a : A) × (r ≡ ok a) × ((f a t).0 ≡ ok b)
  continue_value (ok a) t f e = (a, refl, e)
  continue_value failed t f e = absurd (cc)
  continue_value thrown t f e = absurd (cc)
  continue_value spent t f e = absurd (cc)

  -- The same of the value alone.
  pub bind_value :
      (m : Run S A) (f : A → Run S B) (s : S) {b : B}
      → ((m >>= f) s).0 ≡ ok b
      → (a : A) × ((m s).0 ≡ ok a) × ((f a (m s).1).0 ≡ ok b)
  bind_value m f s e = continue_value (m s).0 (m s).1 f e

module _ {ℓ} {S A : Type ℓ} where
  settle_cases :
      (d : A) (r : Result A) (t : S) {a : A}
      → (or_value d (λ _. (r, t)) t).0 ≡ ok a
      → (r ≡ ok a) ⊎ (a ≡ d)
  settle_cases d (ok b) t e = inl e
  settle_cases d failed t e = inr (cc)
  settle_cases d thrown t e = absurd (cc)
  settle_cases d spent t e = absurd (cc)

  -- A value behind `or_value` is the code's own, or the one for a failure.
  pub or_value_value :
      (d : A) (m : Run S A) (s : S) {a : A} → (or_value d m s).0 ≡ ok a → ((m s).0 ≡ ok a) ⊎ (a ≡ d)
  or_value_value d m s e = settle_cases d (m s).0 (m s).1 e

  attempt_cases :
      (r : Result A) (t : S) {o : Option A}
      → (attempt (λ _. (r, t)) t).0 ≡ ok o
      → (o ≡ none) ⊎ ((a : A) × (o ≡ some a) × (r ≡ ok a))
  attempt_cases (ok b) t e = inr (b, cc, refl)
  attempt_cases failed t e = inl (cc)
  attempt_cases thrown t e = absurd (cc)
  attempt_cases spent t e = absurd (cc)

  pub attempt_value :
      (m : Run S A) (s : S) {o : Option A}
      → (attempt m s).0 ≡ ok o
      → (o ≡ none) ⊎ ((a : A) × (o ≡ some a) × ((m s).0 ≡ ok a))
  attempt_value m s e = attempt_cases (m s).0 (m s).1 e

  -- A value behind a test comes from one of the branches.
  pub if_value :
      (b : Bool) (m n : Run S A) (s : S) {a : A}
      → ((if b then m else n) s).0 ≡ ok a
      → ((b ≡ true) × ((m s).0 ≡ ok a)) ⊎ ((b ≡ false) × ((n s).0 ≡ ok a))
  if_value true m n s e = inl (refl, e)
  if_value false m n s e = inr (refl, e)

  pub need_or_throw_value :
      (o : Option A) (s : S) {a : A} → (need_or_throw o s).0 ≡ ok a → o ≡ some a
  need_or_throw_value none s e = absurd (cc)
  need_or_throw_value (some b) s e = cc
