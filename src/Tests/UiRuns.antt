-- ===== src/Tests/UiRuns.antt =====
-- The window, its environment file, and the names of machines.
use idsproject.Base.{
  Text, ℕ, zero, suc, codes, ℤ, pos, negsuc, has_sub, Option, none, some, List, [], ◌∷◌, ◌≡◌, refl,
  ok,
}
use idsproject.Host.{Connections}
use idsproject.VmManager.{get_vm_names}
use idsproject.VmManager.Handles.{CannotList, IsCounted, get_vm_names-balanced}
use idsproject.MonitorUi.{Env, MonitorUi, new_ui, refresh_all, load_env_file}
use idsproject.MonitorUi.Watched.{
  IsConsistent, watched, replay, refresh_all_refines, new_ui-IsConsistent,
}
use idsproject.MonitorUi.EnvFile.{print, assign, load_env_file-print}

abbrev first_ui : MonitorUi
first_ui = new_ui none (some (codes "API_KEY=k\n")) (codes "web" ∷ [])

abbrev rounds : List (List Text)
rounds = (codes "mail" ∷ codes "web" ∷ []) ∷ (codes "mail" ∷ []) ∷ []

refresh_all_refines_example :
    IsConsistent (refresh_all rounds first_ui)
    × (watched (refresh_all rounds first_ui) ≡ replay rounds (watched first_ui))
refresh_all_refines_example =
    refresh_all_refines rounds first_ui
      (new_ui-IsConsistent none (some (codes "API_KEY=k\n")) (codes "web" ∷ []))

abbrev entries : Env
entries =
    (codes "API_KEY", codes "a=b")
    ∷ (codes "MODE", codes "fast")
    ∷ (codes "API_KEY", codes "c")
    ∷ []

load_env_file-print_example : load_env_file (some (print entries)) ≡ assign entries []
unfolding has_sub
load_env_file-print_example =
    load_env_file-print entries
      ((refl, refl, refl, refl), ((refl, refl, refl, refl), ((refl, refl, refl, refl), tt)))

-- Machines 1 and 2, of which the second has gone by the time it is looked up; the state is the number of
-- handles.
abbrev looked_up : ℤ → ℕ → Option (Unit {0}) × ℕ
looked_up (pos (suc zero)) s = (some tt, suc s)
looked_up i s = (none, s)

abbrev less : ℕ → ℕ
less zero = zero
less (suc n) = n

abbrev virt : Connections ℕ Unit Unit
virt = record {
  connect_open = λ u s. (some tt, s);
  connect_close = λ c s. s;
  count_all = λ c s. (pos 2, s);
  list_domains = λ c n s. (some (pos 1 ∷ pos 2 ∷ []), s);
  lookup_by_id = λ c i s. looked_up i s;
  get_name = λ d s. some (codes "web");
  release = λ d s. less s;
}

lookup_some :
    (id : ℤ) (s : ℕ) (dom : Unit {0}) → (looked_up id s).0 ≡ some dom → (looked_up id s).1 ≡ suc s
lookup_some (pos (suc zero)) s dom e = refl
lookup_some (pos zero) s dom e = absurd (cc)
lookup_some (pos (suc (suc n))) s dom e = absurd (cc)
lookup_some (negsuc n) s dom e = absurd (cc)

lookup_none : (id : ℤ) (s : ℕ) → (looked_up id s).0 ≡ none → (looked_up id s).1 ≡ s
lookup_none (pos (suc zero)) s e = absurd (cc)
lookup_none (pos zero) s e = refl
lookup_none (pos (suc (suc n))) s e = refl
lookup_none (negsuc n) s e = refl

virt-IsCounted : IsCounted virt (λ s. s)
virt-IsCounted = record {
  count_all = λ c s. refl;
  list_domains = λ c n s. refl;
  lookup_some = λ c id s dom e. lookup_some id s dom e;
  lookup_none = λ c id s e. lookup_none id s e;
  release = λ d s n e. rw e refl;
}

get_vm_names-balanced_example :
    (names : List Text) × ((get_vm_names virt (some tt) 4).0 ≡ ok names)
    × (CannotList virt (λ s. s) virt-IsCounted (some tt) 4 → names ≡ [])
    × ((get_vm_names virt (some tt) 4).1 ≡ 4)
get_vm_names-balanced_example = get_vm_names-balanced virt (λ s. s) virt-IsCounted (some tt) 4
