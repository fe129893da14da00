-- ===== src/Base/Total.antt =====
-- Code that always comes back by itself: no exception leaves it and it does not run out of fuel.
use mathlib.Core.Path.{◌≡◌, refl}
use mathlib.Core.Bool.{Bool, true, false}
use mathlib.Core.Option.{Option, none, some}
use idsproject.Base.Logic.{if◌then◌else◌}
use idsproject.Base.Effects.{
  Result, ok, failed, thrown, spent, Run, pure, fail, call, need, effect, ensure, or_value, attempt,
  ◌>>=◌,
}

abbrev pub IsReturn {ℓ} : {A : Type ℓ} → Result A → Type 0
IsReturn (ok a) = Unit
IsReturn failed = Unit
IsReturn thrown = ⊥
IsReturn spent = ⊥

pub record Returns {ℓ} {S A : Type ℓ} (m : Run S A) : Type ℓ where
  pub at : (s : S) → IsReturn (m s).0

module _ {ℓ} {S A : Type ℓ} where
  pub Returns-pure : (a : A) → Returns {S = S} (pure a)
  Returns-pure a = record { at = λ s. tt }

  pub Returns-fail : Returns {S = S} {A = A} fail
  Returns-fail = record { at = λ s. tt }

  pub Returns-call : (f : S → A × S) → Returns (call f)
  Returns-call f = record { at = λ s. tt }

  pub Returns-need : (o : Option A) → Returns {S = S} (need o)
  Returns-need none = record { at = λ s. tt }
  Returns-need (some a) = record { at = λ s. tt }

  pub Returns-if : (b : Bool) (m n : Run S A) → Returns m → Returns n → Returns (if b then m else n)
  Returns-if true m n hm hn = hm
  Returns-if false m n hm hn = hn

  or_value-IsReturn :
      (d : A) (r : Result A) (s : S) → IsReturn r → IsReturn (or_value d (λ _. (r, s)) s).0
  or_value-IsReturn d (ok a) s h = tt
  or_value-IsReturn d failed s h = tt
  or_value-IsReturn d thrown s h = elim h [ ]
  or_value-IsReturn d spent s h = elim h [ ]

  pub Returns-or_value : (d : A) (m : Run S A) → Returns m → Returns (or_value d m)
  Returns-or_value d m h = record { at = λ s. or_value-IsReturn d (m s).0 (m s).1 (h.at s) }

  -- Behind `or_value` the code has a value.
  or_value-ok :
      (d : A) (r : Result A) (s : S)
      → IsReturn r
      → (a : A) × ((or_value d (λ _. (r, s)) s).0 ≡ ok a)
  or_value-ok d (ok a) s h = (a, refl)
  or_value-ok d failed s h = (d, refl)
  or_value-ok d thrown s h = elim h [ ]
  or_value-ok d spent s h = elim h [ ]

  pub or_value_total :
      (d : A) (m : Run S A) (s : S) → Returns m → (a : A) × ((or_value d m s).0 ≡ ok a)
  or_value_total d m s h = or_value-ok d (m s).0 (m s).1 (h.at s)

  settle-ok :
      (d : A) (r : Result A) (s : S)
      → IsReturn (or_value d (λ _. (r, s)) s).0
      → (a : A) × ((or_value d (λ _. (r, s)) s).0 ≡ ok a)
  settle-ok d (ok a) s h = (a, refl)
  settle-ok d failed s h = (d, refl)
  settle-ok d thrown s h = elim h [ ]
  settle-ok d spent s h = elim h [ ]

  -- What is read with a default has a value, where it returns.
  pub or_value_settled :
      (d : A) (m : Run S A) (s : S)
      → IsReturn (or_value d m s).0
      → (a : A) × ((or_value d m s).0 ≡ ok a)
  or_value_settled d m s h = settle-ok d (m s).0 (m s).1 h

  attempt-IsReturn : (r : Result A) (s : S) → IsReturn r → IsReturn (attempt (λ _. (r, s)) s).0
  attempt-IsReturn (ok a) s h = tt
  attempt-IsReturn failed s h = tt
  attempt-IsReturn thrown s h = elim h [ ]
  attempt-IsReturn spent s h = elim h [ ]

  attempt-ok :
      (r : Result A) (s : S) → IsReturn r → (o : Option A) × ((attempt (λ _. (r, s)) s).0 ≡ ok o)
  attempt-ok (ok a) s h = (some a, refl)
  attempt-ok failed s h = (none, refl)
  attempt-ok thrown s h = elim h [ ]
  attempt-ok spent s h = elim h [ ]

  pub Returns-attempt : (m : Run S A) → Returns m → Returns (attempt m)
  Returns-attempt m h = record { at = λ s. attempt-IsReturn (m s).0 (m s).1 (h.at s) }

  pub attempt_total : (m : Run S A) (s : S) → Returns m → (o : Option A) × ((attempt m s).0 ≡ ok o)
  attempt_total m s h = attempt-ok (m s).0 (m s).1 (h.at s)

module _ {ℓ} {S A B : Type ℓ} where
  bind-IsReturn :
      (r : Result A) (s : S) (f : A → Run S B)
      → IsReturn r
      → ((a : A) → Returns (f a))
      → IsReturn (((λ _. (r, s)) >>= f) s).0
  bind-IsReturn (ok a) s f h hf = (hf a).at s
  bind-IsReturn failed s f h hf = tt
  bind-IsReturn thrown s f h hf = elim h [ ]
  bind-IsReturn spent s f h hf = elim h [ ]

  pub Returns-bind :
      (m : Run S A) (f : A → Run S B) → Returns m → ((a : A) → Returns (f a)) → Returns (m >>= f)
  Returns-bind m f hm hf = record { at = λ s. bind-IsReturn (m s).0 (m s).1 f (hm.at s) hf }

module _ {S : Type 0} where
  pub Returns-effect : (f : S → S) → Returns (effect f)
  Returns-effect f = record { at = λ s. tt }

  pub Returns-ensure : (b : Bool) → Returns {S = S} (ensure b)
  Returns-ensure true = record { at = λ s. tt }
  Returns-ensure false = record { at = λ s. tt }

pub ruleset returns_rules = (
  Returns-pure, Returns-fail, Returns-call, Returns-need, Returns-if, Returns-or_value,
  Returns-attempt, Returns-bind, Returns-effect, Returns-ensure,
)
