-- ===== src/ProcessMonitor/Verdicts.antt =====
-- The verdicts that a table of checked hashes stands for, and what one more check does to them.
use mathlib.Core.Path.{fun_ext}
use idsproject.Base.{
  Text, ℕ, codes, text_eq, text_eq_iff, Bool, true, false, Bool-cases, ◌||◌, Option, none, some,
  List, [], ◌∷◌, ◌≡◌, ◌⊎◌, inl, inr, refl, sym, ◌∙◌, ap, if◌then◌else◌,
}
use idsproject.HashDb.{ProcessRecord}
use idsproject.HashDb.Rows.{Rows, with_row}
use idsproject.ProcessMonitor.{new_record}

pub record Check : Type 0 where
  pub hash : Text
  pub path : Text
  pub now : ℕ

-- The hashes that are asked for the first time and are not known, each once.
abbrev pub fresh : (Text → Bool) → List Check → List Text
fresh known [] = []
fresh known (c ∷ checks) =
    if known c.hash
    then fresh known checks
    else c.hash ∷ fresh (λ h. text_eq c.hash h || known h) checks

-- A hash with a verdict keeps it, and one without has that of its first check from there on.
abbrev pub Remembers : (Text → Option Bool) → List Check → List Bool → Type 0
Remembers verdict [] [] = Unit
Remembers verdict [] (v ∷ vs) = ⊥
Remembers verdict (c ∷ checks) [] = ⊥
Remembers verdict (c ∷ checks) (v ∷ vs) =
    ((verdict c.hash ≡ some v) ⊎ (verdict c.hash ≡ none))
    × Remembers (λ h. if text_eq c.hash h then some v else verdict h) checks vs

abbrev pub row_verdict : Option ProcessRecord → Option Bool
row_verdict none = none
row_verdict (some rec) = some (text_eq rec.status (codes "malicious"))

abbrev pub is_row : Option ProcessRecord → Bool
is_row none = false
is_row (some rec) = true

-- The verdicts in the table.
abbrev pub verdict_in : Rows → Text → Option Bool
verdict_in rows h = row_verdict (rows h)

abbrev pub has_row : Rows → Text → Bool
has_row rows h = is_row (rows h)

-- What a check does to them.
pub row_verdict-new_record :
    (path : Text) (v : Bool) (now : ℕ) → row_verdict (some (new_record path v now)) ≡ some v
unfolding new_record text_eq
row_verdict-new_record path true now = refl
row_verdict-new_record path false now = refl

pub verdict_in_known :
    (rows : Rows) (hash : Text) (rec : ProcessRecord) (v : Bool)
    → rows hash ≡ some rec
    → text_eq rec.status (codes "malicious") ≡ v
    → (λ h. if text_eq hash h then some v else verdict_in rows h) ≡ verdict_in rows
verdict_in_known rows hash rec v e same = fun_ext λ h. elim (Bool-cases (text_eq hash h)) [
  | inl here ↦
      let at : rows hash ≡ rows h = ap rows ((text_eq_iff hash h).0 here) in
      rw here (ap some (sym same) ∙ ap row_verdict (sym e ∙ at))
  | inr other ↦ rw other refl
]

pub verdict_in_new :
    (rows : Rows) (hash path : Text) (v : Bool) (now : ℕ)
    → (λ h. if text_eq hash h then some v else verdict_in rows h)
      ≡ verdict_in (with_row hash (new_record path v now) rows)
verdict_in_new rows hash path v now = fun_ext λ h. elim (Bool-cases (text_eq hash h)) [
  | inl here ↦ rw here (sym (row_verdict-new_record path v now))
  | inr other ↦ rw other refl
]

pub has_row_new :
    (rows : Rows) (hash : Text) (rec : ProcessRecord)
    → (λ h. text_eq hash h || has_row rows h) ≡ has_row (with_row hash rec rows)
has_row_new rows hash rec =
    fun_ext λ h. elim (Bool-cases (text_eq hash h)) [
      | inl here ↦ rw here refl
      | inr other ↦ rw other refl
    ]
