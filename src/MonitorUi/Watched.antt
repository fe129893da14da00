-- ===== src/MonitorUi/Watched.antt =====
-- The machines that the window watches, as a set of names.
use mathlib.Core.Path.{fun_ext}
use idsproject.Base.{
  Text, text_eq, text_eq_iff, Bool, true, false, ◌||◌, List, [], ◌∷◌, ◌++◌, ◌≡◌, refl, ◌∙◌, ap, sym,
  arith, Bool-cases, inl, inr, Option,
}
use idsproject.MonitorUi.{
  Thread, network, monitor, MonitorUi, has_name, watch, watch_all, update_vms, refresh_all, new_ui,
  with_key, starting, choose_api_key,
}

-- The abstract view: whether a name is watched.
abbrev pub watched : MonitorUi → Text → Bool
watched ui n = has_name n ui.monitors

-- A set with these names added.
abbrev pub added : List Text → (Text → Bool) → Text → Bool
added names set n = set n || has_name n names

-- The sets behind the rounds.
abbrev pub replay : List (List Text) → (Text → Bool) → Text → Bool
replay [] set = set
replay (names ∷ rounds) set = replay rounds (added names set)

-- The threads of these machines.
abbrev pub threads_of : List Text → List Thread
threads_of [] = []
threads_of (n ∷ names) = network n ∷ monitor n ∷ threads_of names

abbrev pub Distinct : List Text → Type 0
Distinct [] = Unit
Distinct (n ∷ names) = (has_name n names ≡ false) × Distinct names

-- Each watched machine once, with its two threads.
pub record IsConsistent (ui : MonitorUi) : Type 0 where
  pub distinct : Distinct ui.monitors
  pub threads : ui.threads ≡ threads_of ui.monitors

has_name-snoc :
    (n m : Text) (names : List Text)
    → has_name n (names ++ m ∷ []) ≡ (has_name n names || text_eq m n)
unfolding has_name
has_name-snoc n m [] = ground arith
has_name-snoc n m (k ∷ names) = ground (arith, has_name-snoc n m names)

threads_of-snoc :
    (names : List Text) (n : Text)
    → threads_of (names ++ n ∷ []) ≡ threads_of names ++ network n ∷ monitor n ∷ []
threads_of-snoc [] n = refl
threads_of-snoc (k ∷ names) n = ap (λ t. network k ∷ monitor k ∷ t) (threads_of-snoc names n)

text_eq_comm : (a b : Text) → text_eq a b ≡ text_eq b a
text_eq_comm a b = ground (arith, text_eq_iff a b, text_eq_iff b a)

Distinct-snoc :
    (names : List Text) (n : Text)
    → Distinct names
    → has_name n names ≡ false
    → Distinct (names ++ n ∷ [])
unfolding has_name
Distinct-snoc [] n d new = (refl, tt)
Distinct-snoc (k ∷ names) n (fresh, d) new =
    let rest = has_name-snoc k n names in
    let same = text_eq_comm n k in
    (ground (arith, rest, same), Distinct-snoc names n d (ground arith))

already :
    (n m : Text) (names : List Text)
    → has_name n names ≡ true
    → has_name m names ≡ (has_name m names || text_eq n m)
already n m names old = ground (arith, text_eq_iff n m)

watch-watched :
    (n : Text) (ui : MonitorUi) (m : Text) → watched (watch n ui) m ≡ (watched ui m || text_eq n m)
unfolding watch
watch-watched n ui m = elim (Bool-cases (has_name n ui.monitors)) [
  | inl old ↦ rw old (already n m ui.monitors old)
  | inr new ↦ rw new (has_name-snoc m n ui.monitors)
]

watch-IsConsistent : (n : Text) (ui : MonitorUi) → IsConsistent ui → IsConsistent (watch n ui)
unfolding watch
watch-IsConsistent n ui c = elim (Bool-cases (has_name n ui.monitors)) [
  | inl old ↦ rw old c
  | inr new ↦ rw new (record {
    distinct = Distinct-snoc ui.monitors n c.distinct new;
    threads =
        ap (λ t. t ++ network n ∷ monitor n ∷ []) c.threads ∙ sym (threads_of-snoc ui.monitors n);
  })
]

watch_all-watched :
    (names : List Text) (ui : MonitorUi) (m : Text)
    → watched (watch_all names ui) m ≡ (watched ui m || has_name m names)
unfolding watch_all has_name
watch_all-watched [] ui m = ground arith
watch_all-watched (n ∷ names) ui m =
    let here = watch-watched n ui m in
    let later = watch_all-watched names (watch n ui) m in ground (arith, here, later)

watch_all-IsConsistent :
    (names : List Text) (ui : MonitorUi) → IsConsistent ui → IsConsistent (watch_all names ui)
unfolding watch_all
watch_all-IsConsistent [] ui c = c
watch_all-IsConsistent (n ∷ names) ui c =
    watch_all-IsConsistent names (watch n ui) (watch-IsConsistent n ui c)

update_vms-IsConsistent :
    (names : List Text) (ui : MonitorUi) → IsConsistent ui → IsConsistent (update_vms names ui)
unfolding update_vms
update_vms-IsConsistent names ui c =
    let d = watch_all-IsConsistent names ui c in
    record { distinct = d.distinct; threads = d.threads }

update_vms-watched :
    (names : List Text) (ui : MonitorUi) → watched (update_vms names ui) ≡ added names (watched ui)
unfolding update_vms
update_vms-watched names ui = fun_ext λ m. watch_all-watched names ui m

-- Whatever names the refreshes of a consistent window meet, the window stays consistent: each watched
-- machine stands in it once and has its two threads and no others. The watched names are those of
-- before with the names of the refreshes added, as sets: their order and repetition is of no account.
pub refresh_all_refines :
    (rounds : List (List Text)) (ui : MonitorUi)
    → IsConsistent ui
    → IsConsistent (refresh_all rounds ui)
      × (watched (refresh_all rounds ui) ≡ replay rounds (watched ui))
unfolding refresh_all
refresh_all_refines [] ui c = (c, refl)
refresh_all_refines (names ∷ rounds) ui c =
    let (d, e) =
      refresh_all_refines rounds (update_vms names ui) (update_vms-IsConsistent names ui c) in
    (d, e ∙ ap (replay rounds) (update_vms-watched names ui))

-- The window that the constructor builds is consistent.
pub new_ui-IsConsistent :
    (variable file : Option Text) (names : List Text) → IsConsistent (new_ui variable file names)
unfolding new_ui with_key
new_ui-IsConsistent variable file names =
    update_vms-IsConsistent names _ (keyed (choose_api_key variable file))
  where
    keyed : (key : Text) → IsConsistent (with_key key (starting variable))
    keyed [] = record { distinct = tt; threads = refl }
    keyed (c ∷ key) = record { distinct = tt; threads = refl }
