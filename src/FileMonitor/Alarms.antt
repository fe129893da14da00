-- ===== src/FileMonitor/Alarms.antt =====
-- What a call of `hasFileChanged` promises, and what it does not.
use idsproject.Base.{
  Text, lookup, Bool, true, false, none, some, [], ◌∷◌, ◌≡◌, ◌↔◌, ◌⊎◌, inl, inr, refl, All, ok,
  iff_trans, ap, ◌∙◌, Bool-cases,
}
use idsproject.Host.{Libvirt, JsonC, Evp}
use idsproject.FileMonitor.{FileMonitor, Hashes, note_hash, has_file_changed}
use idsproject.FileMonitor.Observe.{Seen, SeenAs, Distinct, Differs, note_all, observe}
use idsproject.FileMonitor.Changes.{note_all-flag, note_all-lookup, has_file_changed-eq}

-- No file of the list could be read and hashed.
abbrev pub Unreadable : Seen → Type 0
Unreadable = All (λ e. e.1 ≡ none)

only_right : {A : Type 0} → ((◌≡◌ {A = Bool} false true) ⊎ A) ↔ A
only_right {A} = (there, λ a. inr a)
  where
    there : (◌≡◌ {A = Bool} false true) ⊎ A → A
    there (inl e) = absurd (cc)
    there (inr a) = a

note_all-Unreadable :
    (seen : Seen) (state : Hashes × Bool) → Unreadable seen → note_all seen state ≡ state
unfolding note_hash
note_all-Unreadable [] state u = refl
note_all-Unreadable ((p, o) ∷ seen) state u = rw u.0 (note_all-Unreadable seen state u.1)

module _ {S Dom J Ctx : Type 0} (virt : Libvirt S Dom) (json : JsonC J) (evp : Evp S Ctx)
    (m : FileMonitor) where
  -- Where the domain is found, `hasFileChanged` returns a value, which is true exactly when some
  -- watched file was read with a hash other than the one in memory (none in memory is another), the
  -- paths being distinct.
  pub has_file_changed-exact :
      (s : S) {dom : Dom} {s1 : S} {seen : Seen}
      → virt.lookup_by_name m.vm_name s ≡ (some dom, s1)
      → (observe virt json evp dom m.files2watch s1).0 ≡ ok seen
      → Distinct seen
      → (changed : Bool) × (m' : FileMonitor) × ((has_file_changed virt json evp m s).0
          ≡ ok (changed, m'))
        × ((changed ≡ true) ↔ Differs seen m.file_hashes)
  has_file_changed-exact s {seen} found saw d = (
    (note_all seen (m.file_hashes, false)).1,
    record m { file_hashes = (note_all seen (m.file_hashes, false)).0 },
    ap (λ t. t.0) (has_file_changed-eq virt json evp m s found saw),
    iff_trans (note_all-flag seen m.file_hashes false d) only_right,
  )

  -- After a round that found the domain, each hash that it saw (the paths being distinct) is the one
  -- in memory for its path.
  pub has_file_changed-remembers :
      (s : S) (path hash : Text) {dom : Dom} {s1 : S} {seen : Seen} {changed : Bool}
      {m' : FileMonitor}
      → virt.lookup_by_name m.vm_name s ≡ (some dom, s1)
      → (observe virt json evp dom m.files2watch s1).0 ≡ ok seen
      → Distinct seen
      → (has_file_changed virt json evp m s).0 ≡ ok (changed, m')
      → SeenAs path hash seen
      → lookup path m'.file_hashes ≡ some hash
  has_file_changed-remembers s path hash {seen} {m'} found saw d e at =
      let round = has_file_changed-eq virt json evp m s found saw in
      let same : m' ≡ record m { file_hashes = (note_all seen (m.file_hashes, false)).0 } =
        cc (ap (λ r. r.0) round) in
      rw same (note_all-lookup path hash seen (m.file_hashes, false) d at)

  -- A round in which each hash that is seen is the one in memory reports no change.
  pub has_file_changed-settled :
      (s : S) {dom : Dom} {s1 : S} {seen : Seen}
      → virt.lookup_by_name m.vm_name s ≡ (some dom, s1)
      → (observe virt json evp dom m.files2watch s1).0 ≡ ok seen
      → Distinct seen
      → ((path hash : Text) → SeenAs path hash seen → lookup path m.file_hashes ≡ some hash)
      → (m' : FileMonitor) × ((has_file_changed virt json evp m s).0 ≡ ok (false, m'))
  has_file_changed-settled s found saw d known =
      let (changed, m', e, exact) = has_file_changed-exact s found saw d in
      elim (Bool-cases changed) [
        | inr f ↦ (m', e ∙ ap (λ b. ok (b, m')) f)
        | inl t ↦ let (p, h, at, ne) = exact.0 t in absurd (ne (known p h at))
      ]

  -- A watched file that can no longer be read raises no alarm: where none can be, whatever hashes are
  -- in memory, the answer is "no change" and the memory stays as it is.
  pub has_file_changed-Unreadable :
      (s : S) {dom : Dom} {s1 : S} {seen : Seen}
      → virt.lookup_by_name m.vm_name s ≡ (some dom, s1)
      → (observe virt json evp dom m.files2watch s1).0 ≡ ok seen
      → Unreadable seen
      → (has_file_changed virt json evp m s).0 ≡ ok (false, m)
  has_file_changed-Unreadable s {seen} found saw u =
      let e = has_file_changed-eq virt json evp m s found saw in
      rw (e, note_all-Unreadable seen (m.file_hashes, false) u)

-- Where two rounds in a row find the domain and see the same files with the same hashes, the second
-- reports no change.
pub has_file_changed-quiet :
    {S Dom J Ctx : Type 0} (virt : Libvirt S Dom) (json : JsonC J) (evp : Evp S Ctx)
    (m : FileMonitor) (s t : S) {dom dom' : Dom} {s1 t1 : S} {seen : Seen} {changed : Bool}
    {m' : FileMonitor}
    → virt.lookup_by_name m.vm_name s ≡ (some dom, s1)
    → (observe virt json evp dom m.files2watch s1).0 ≡ ok seen
    → Distinct seen
    → (has_file_changed virt json evp m s).0 ≡ ok (changed, m')
    → virt.lookup_by_name m'.vm_name t ≡ (some dom', t1)
    → (observe virt json evp dom' m'.files2watch t1).0 ≡ ok seen
    → (m'' : FileMonitor) × ((has_file_changed virt json evp m' t).0 ≡ ok (false, m''))
has_file_changed-quiet virt json evp m s t {m'} found saw d first found' saw' =
    has_file_changed-settled virt json evp m' t found' saw' d
      (λ path hash at. has_file_changed-remembers virt json evp m s path hash found saw d first at)
