-- ===== src/FileMonitor/Views.antt =====
-- The hashes in memory as a function of the path, and what one look at the watched files does to it.
use mathlib.Core.Path.{fun_ext}
use idsproject.Base.{
  Text, text_eq, lookup, lookup-insert, insert, Bool, true, false, Option, none, some, List, [],
  ◌∷◌, ◌≡◌, ◌≢◌, ◌↔◌, refl, ◌∙◌, ap, ok, subst, if◌then◌else◌,
}
use idsproject.Host.{Libvirt, JsonC, Evp, Disk}
use idsproject.FileMonitor.{FileMonitor, Hashes, note_hash, has_file_changed}
use idsproject.FileMonitor.Observe.{Seen, SeenAs, note_all}
use idsproject.FileMonitor.Changes.{has_file_changed-eq}
use idsproject.FileMonitor.Alarms.{has_file_changed-exact}
use idsproject.FileMonitor.Loading.{assign}
use idsproject.FileMonitor.Startup.{readable}
use idsproject.FileMonitor.Steady.{IsSteady, shown, observe-shown}
use idsproject.FileMonitor.Detection.{DistinctPaths, Distinct-shown}

abbrev pub View : Type 0
View = Text → Option Text

abbrev pub view : Hashes → View
view known path = lookup path known

abbrev pub empty_view : View
empty_view path = none

-- The view with the hashes that were seen; a file without a hash keeps that of before.
abbrev pub noted : Seen → View → View
noted [] v = v
noted ((path, none) ∷ seen) v = noted seen v
noted ((path, some hash) ∷ seen) v = noted seen (λ q. if text_eq path q then some hash else v q)

-- Some file was seen with a hash that is not the one in the view.
abbrev pub DiffersFrom : Seen → View → Type 0
DiffersFrom seen v = (path : Text) × (hash : Text) × SeenAs path hash seen × (v path ≢ some hash)

-- One round of an ideal monitor: with no guest there is no alarm and nothing is learnt; else there is
-- an alarm exactly where some hash differs from the view, and the view is brought up to date.
abbrev pub Notices : View → Option Seen → Bool → View → Type 0
Notices v none alarm v' = (alarm ≡ false) × (v' ≡ v)
Notices v (some seen) alarm v' = ((alarm ≡ true) ↔ DiffersFrom seen v) × (v' ≡ noted seen v)

-- Its rounds in turn, one alarm or none for each.
abbrev pub Watches : View → List (Option Seen) → List Bool → View → Type 0
Watches v [] [] v' = v' ≡ v
Watches v [] (alarm ∷ alarms) v' = ⊥
Watches v (look ∷ looks) [] v' = ⊥
Watches v (look ∷ looks) (alarm ∷ alarms) v' =
    (u : View) × Notices v look alarm u × Watches u looks alarms v'

view-insert :
    (path hash : Text) (known : Hashes)
    → view (insert path hash known) ≡ (λ q. if text_eq path q then some hash else view known q)
view-insert path hash known = fun_ext λ q. lookup-insert path q hash known

view-note_all :
    (seen : Seen) (known : Hashes) (changed : Bool)
    → view (note_all seen (known, changed)).0 ≡ noted seen (view known)
unfolding note_hash
view-note_all [] known changed = refl
view-note_all ((path, none) ∷ seen) known changed = view-note_all seen known changed
view-note_all ((path, some hash) ∷ seen) known changed =
    view-note_all seen (insert path hash known) _ ∙ ap (noted seen) (view-insert path hash known)

pub view-assign :
    (seen : Seen) (known : Hashes) → view (assign (readable seen) known) ≡ noted seen (view known)
view-assign [] known = refl
view-assign ((path, none) ∷ seen) known = view-assign seen known
view-assign ((path, some hash) ∷ seen) known =
    view-assign seen (insert path hash known) ∙ ap (noted seen) (view-insert path hash known)

module _ {S Dom J Ctx : Type 0} (virt : Libvirt S Dom) (json : JsonC J) (evp : Evp S Ctx)
    (disk : Disk S) where
  -- What the guest shows at one time, where its domain is found.
  abbrev pub look_at : List Text → Option Dom × S → Option Seen
  look_at files (none, s) = none
  look_at files (some dom, s) = some (shown virt json evp disk dom files s)

  -- A call of `hasFileChanged` is a round of the ideal monitor.
  pub has_file_changed-Notices :
      (m : FileMonitor) (s : S)
      → ((dom : Dom) → IsSteady virt json evp disk dom)
      → DistinctPaths m.files2watch
      → (alarm : Bool) × (known : Hashes) × ((has_file_changed virt json evp m s).0
          ≡ ok (alarm, record m { file_hashes = known }))
        × Notices
            (view m.file_hashes)
            (look_at m.files2watch (virt.lookup_by_name m.vm_name s))
            alarm
            (view known)
  unfolding has_file_changed
  has_file_changed-Notices m s steady distinct = by_domain (virt.lookup_by_name m.vm_name s) refl
    where
      by_domain :
          (found : Option Dom × S)
          → virt.lookup_by_name m.vm_name s ≡ found
          → (alarm : Bool) × (known : Hashes) × ((has_file_changed virt json evp m s).0
              ≡ ok (alarm, record m { file_hashes = known }))
            × Notices (view m.file_hashes) (look_at m.files2watch found) alarm (view known)
      by_domain (none, s1) e = (false, m.file_hashes, rw e refl, (refl, refl))
      by_domain (some dom, s1) e =
          let seen = shown virt json evp disk dom m.files2watch s1 in
          let saw = observe-shown virt json evp disk dom (steady dom) m.files2watch s1 in
          let whole = has_file_changed-eq virt json evp m s e saw in
          let (alarm, m', answer, exact) =
            has_file_changed-exact virt json evp m s e saw
              (Distinct-shown virt json evp disk dom m.files2watch s1 distinct) in
          let after = note_all seen (m.file_hashes, false) in
          let same : alarm ≡ after.1 = cc (answer, ap (λ t. t.0) whole) in
          (
            after.1,
            after.0,
            ap (λ t. t.0) whole,
            (
              subst (λ b. (b ≡ true) ↔ DiffersFrom seen (view m.file_hashes)) same exact,
              view-note_all seen m.file_hashes false,
            ),
          )
