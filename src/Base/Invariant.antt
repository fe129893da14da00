-- ===== src/Base/Invariant.antt =====
-- A predicate on the state that code keeps, however it ends.
use mathlib.Core.Bool.{Bool, true, false}
use mathlib.Core.Option.{Option, none, some}
use idsproject.Base.Logic.{if◌then◌else◌}
use idsproject.Base.Effects.{
  Result, ok, Run, pure, lift, need, need_or_throw, effect, or_value, attempt, continue, ◌>>=◌,
}

pub record Preserves {S A : Type 0} (P : S → Type 0) (m : Run S A) : Type 0 where
  pub at : (s : S) → P s → P (m s).1

module _ {S A : Type 0} {P : S → Type 0} where
  pub Preserves-pure : (a : A) → Preserves P (pure a)
  Preserves-pure a = record { at = λ s h. h }

  pub Preserves-lift : (r : Result A) → Preserves P (lift r)
  Preserves-lift r = record { at = λ s h. h }

  pub Preserves-need : (o : Option A) → Preserves P (need o)
  Preserves-need none = record { at = λ s h. h }
  Preserves-need (some a) = record { at = λ s h. h }

  pub Preserves-need_or_throw : (o : Option A) → Preserves P (need_or_throw o)
  Preserves-need_or_throw none = record { at = λ s h. h }
  Preserves-need_or_throw (some a) = record { at = λ s h. h }

  pub Preserves-if :
      (b : Bool) (m n : Run S A) → Preserves P m → Preserves P n → Preserves P (if b then m else n)
  Preserves-if true m n hm hn = hm
  Preserves-if false m n hm hn = hn

  pub Preserves-or_value : (a : A) (m : Run S A) → Preserves P m → Preserves P (or_value a m)
  Preserves-or_value a m h = record { at = h.at }

  pub Preserves-attempt : (m : Run S A) → Preserves P m → Preserves P (attempt m)
  Preserves-attempt m h = record { at = h.at }

module _ {S : Type 0} {P : S → Type 0} where
  pub Preserves-effect : (f : S → S) → ((s : S) → P s → P (f s)) → Preserves P (effect f)
  Preserves-effect f h = record { at = h }

module _ {S A B : Type 0} {P : S → Type 0} where
  after_bind :
      (r : Result A) (s : S) (k : A → Run S B)
      → ((a : A) → Preserves P (k a))
      → P s
      → P (continue r k s).1
  after_bind (ok a) s k hk h = (hk a).at s h
  after_bind _ s k hk h = h

  -- What holds behind the first part holds behind the whole, where the second keeps it.
  pub kept_behind :
      (m : Run S A) (k : A → Run S B) (s : S)
      → ((a : A) → Preserves P (k a))
      → P (m s).1
      → P ((m >>= k) s).1
  kept_behind m k s hk h = after_bind (m s).0 (m s).1 k hk h

  pub Preserves-bind :
      (m : Run S A) (k : A → Run S B)
      → Preserves P m
      → ((a : A) → Preserves P (k a))
      → Preserves P (m >>= k)
  Preserves-bind m k hm hk = record { at = λ s h. after_bind (m s).0 (m s).1 k hk (hm.at s h) }

pub ruleset preserves_rules = (
  Preserves-pure, Preserves-lift, Preserves-need, Preserves-need_or_throw, Preserves-if,
  Preserves-or_value, Preserves-attempt, Preserves-bind,
)
