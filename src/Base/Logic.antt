-- ===== src/Base/Logic.antt =====
-- Boolean tests on the native numbers, the conditional, and splits that keep an equation.
use Prim.Native.Nat.{ℕ, suc, ◌+◌, compare, Ordering}
use mathlib.Core.Path.{◌≡◌, refl}
use mathlib.Core.Logic.{◌↔◌, ◌⊎◌, inl, inr}
use mathlib.Core.Bool.{Bool, true, false, ◌||◌}
use mathlib.Core.Option.{Option, none, some}
use mathlib.Core.List.{List, [], ◌∷◌, ◌++◌}
use native.Mathlib.Omega.{arith}

abbrev pub ltb : ℕ → ℕ → Bool
ltb a b = elim (compare a b) [ Ordering.lt ↦ true | _ ↦ false ]

abbrev pub leb : ℕ → ℕ → Bool
leb a b = elim (compare a b) [ Ordering.gt ↦ false | _ ↦ true ]

infix 50 ◌==◌
abbrev pub ◌==◌ : ℕ → ℕ → Bool
a == b = elim (compare a b) [ Ordering.eq ↦ true | _ ↦ false ]

infix 1 if◌then◌else◌
abbrev pub if◌then◌else◌ {ℓ} : {A : Type ℓ} → Bool → A → A → A
if true then x else y = x
if false then x else y = y

pub ==_iff : (a b : ℕ) → ((a == b) ≡ true) ↔ (a ≡ b)
==_iff a b = ground arith

pub ==_refl : (a : ℕ) → (a == a) ≡ true
==_refl a = ground arith

pub Bool-cases : (b : Bool) → (b ≡ true) ⊎ (b ≡ false)
Bool-cases true = inl refl
Bool-cases false = inr refl

pub Option-cases {ℓ} : {A : Type ℓ} (o : Option A) → (o ≡ none) ⊎ ((a : A) × (o ≡ some a))
Option-cases none = inl refl
Option-cases (some a) = inr (a, refl)

module _ {ℓ} {A : Type ℓ} where
  abbrev pub length : List A → ℕ
  length [] = 0
  length (x ∷ xs) = suc (length xs)

  pub length-append : (xs ys : List A) → length (xs ++ ys) ≡ length xs + length ys
  length-append [] ys = omega arith
  length-append (x ∷ xs) ys = omega (arith, length-append xs ys)

  -- Whether a test holds of some element.
  abbrev pub any : (A → Bool) → List A → Bool
  any p [] = false
  any p (x ∷ xs) = p x || any p xs

  pub any-append : (p : A → Bool) (xs ys : List A) → any p (xs ++ ys) ≡ (any p xs || any p ys)
  any-append p [] ys = refl
  any-append p (x ∷ xs) ys = ground (arith, any-append p xs ys)

-- A predicate that holds of every element.
abbrev pub All {ℓ κ} : {A : Type ℓ} → (A → Type κ) → List A → Type κ
All P [] = Unit
All P (x ∷ xs) = P x × All P xs

module _ {ℓ} {A B C : Type ℓ} where
  pub iff_trans : A ↔ B → B ↔ C → A ↔ C
  iff_trans p q = (λ a. q.0 (p.0 a), λ c. p.1 (q.1 c))

  pub sum_assoc : ((A ⊎ B) ⊎ C) ↔ (A ⊎ (B ⊎ C))
  sum_assoc = (there, back)
    where
      there : (A ⊎ B) ⊎ C → A ⊎ (B ⊎ C)
      there (inl (inl a)) = inl a
      there (inl (inr b)) = inr (inl b)
      there (inr c) = inr (inr c)

      back : A ⊎ (B ⊎ C) → (A ⊎ B) ⊎ C
      back (inl a) = inl (inl a)
      back (inr (inl b)) = inl (inr b)
      back (inr (inr c)) = inr c

module _ {ℓ} {A B C D : Type ℓ} where
  pub sum_iff : A ↔ B → C ↔ D → (A ⊎ C) ↔ (B ⊎ D)
  sum_iff p q = (there, back)
    where
      there : A ⊎ C → B ⊎ D
      there (inl a) = inl (p.0 a)
      there (inr c) = inr (q.0 c)

      back : B ⊎ D → A ⊎ C
      back (inl b) = inl (p.1 b)
      back (inr d) = inr (q.1 d)

pub iff_refl {ℓ} : {A : Type ℓ} → A ↔ A
iff_refl = (λ a. a, λ a. a)

pub or_iff : (a b : Bool) → ((a || b) ≡ true) ↔ ((a ≡ true) ⊎ (b ≡ true))
or_iff true b = (λ _. inl refl, λ _. refl)
or_iff false b = (λ h. inr h, back)
  where
    back : (◌≡◌ {A = Bool} false true) ⊎ (b ≡ true) → b ≡ true
    back (inl e) = cc
    back (inr e) = e
