-- ===== src/FileMonitor/Detection.antt =====
-- The start of a machine's monitor and the first round after it: what is reported is what has changed
-- in between.
use idsproject.Base.{
  Text, text_eq, text_eq_iff, lookup, lookup-insert, insert, Bool, true, false, Bool-cases, none,
  some, List, [], ◌∷◌, ◌≡◌, ◌↔◌, ◌⊎◌, inl, inr, refl, subst, arith, All, ◌∙◌, ap, ok, iff_trans,
}
use idsproject.Host.{Libvirt, JsonC, Evp, Disk}
use idsproject.FileMonitor.{
  FileMonitor, Hashes, new_monitor, hash_file, store_file_hash, initialize_vm_hashes,
  has_file_changed,
}
use idsproject.FileMonitor.Observe.{Seen, SeenAs, Fresh, Distinct, Differs}
use idsproject.FileMonitor.Alarms.{has_file_changed-exact}
use idsproject.FileMonitor.Loading.{print, assign, IsClean, load_lines-print}
use idsproject.FileMonitor.HostFile.{IsDisk, LeavesFile}
use idsproject.FileMonitor.Startup.{
  readable, IsCleanPath, HexSeen, store_files-print, file_hash-OneLine,
}
use idsproject.FileMonitor.Baseline.{readable-IsClean, load_stored_hashes-read}
use idsproject.FileMonitor.Steady.{
  IsSteady, shown, shown-same, paths_of-shown, observe-shown, store_files-shown, hash_of-ok,
}

-- Which hashes are in memory behind the assignments of what was seen.
assign-Fresh :
    (path : Text) (seen : Seen) (known : Hashes)
    → Fresh path seen
    → lookup path (assign (readable seen) known) ≡ lookup path known
assign-Fresh path [] known f = refl
assign-Fresh path ((p, none) ∷ seen) known (f, fs) = assign-Fresh path seen known fs
assign-Fresh path ((p, some hash) ∷ seen) known (f, fs) =
    assign-Fresh path seen (insert p hash known) fs
    ∙ ground (arith, lookup-insert p path hash known, text_eq_iff path p, text_eq_iff p path)

assign-seen :
    (path hash : Text) (seen : Seen) (known : Hashes)
    → Distinct seen
    → SeenAs path hash seen
    → lookup path (assign (readable seen) known) ≡ some hash
assign-seen path hash [] known d at = elim at [ ]
assign-seen path hash ((p, none) ∷ seen) known d (inl e) = absurd (cc)
assign-seen path hash ((p, none) ∷ seen) known d (inr at) = assign-seen path hash seen known d.1 at
assign-seen path hash ((p, some h) ∷ seen) known d (inr at) =
    assign-seen path hash seen (insert p h known) d.1 at
assign-seen path hash ((p, some h) ∷ seen) known d (inl e) =
    subst (λ q. lookup q (assign (readable seen) (insert p h known)) ≡ some hash) e.0
      (assign-Fresh p seen (insert p h known) d.0
        ∙ ground (arith, lookup-insert p p h known, text_eq_iff p p, e.1))

only_seen :
    (path hash : Text) (seen : Seen) (known : Hashes)
    → lookup path (assign (readable seen) known) ≡ some hash
    → SeenAs path hash seen ⊎ (lookup path known ≡ some hash)
only_seen path hash [] known e = inr e
only_seen path hash ((p, none) ∷ seen) known e = elim (only_seen path hash seen known e) [
  | inl at ↦ inl (inr at)
  | inr old ↦ inr old
]
only_seen path hash ((p, some h) ∷ seen) known e =
    elim (only_seen path hash seen (insert p h known) e) [
      | inl at ↦ inl (inr at)
      | inr old ↦ elim (Bool-cases (text_eq p path)) [
        | inl here ↦
            inl (
              inl
                (ground (arith, text_eq_iff p path), ground (arith, lookup-insert p path h known)))
        | inr other ↦ inr (ground (arith, lookup-insert p path h known))
      ]
    ]

-- No path is twice in the list.
abbrev pub DistinctPaths : List Text → Type 0
DistinctPaths [] = Unit
DistinctPaths (path ∷ rest) = All (λ q. text_eq path q ≡ false) rest × DistinctPaths rest

-- Some file hashes to something other than it did at the start, where it may have had no hash.
abbrev pub ChangedSince : Seen → Seen → Type 0
ChangedSince at_start now =
    (path : Text) × (hash : Text) × SeenAs path hash now × (SeenAs path hash at_start → ⊥)

Differs-ChangedSince :
    (at_start now : Seen)
    → Distinct at_start
    → Differs now (assign (readable at_start) []) ↔ ChangedSince at_start now
Differs-ChangedSince at_start now d = (
  λ (path, hash, at, ne). (path, hash, at, λ same. ne (assign-seen path hash at_start [] d same)),
  λ (path, hash, at, ne). (
    path,
    hash,
    at,
    λ e. elim (only_seen path hash at_start [] e) [
      | inl same ↦ ne same
      | inr old ↦ absurd (unfold lookup in cc)
    ],
  ),
)

module _ {S Dom J Ctx : Type 0} (virt : Libvirt S Dom) (json : JsonC J) (evp : Evp S Ctx)
    (disk : Disk S) where
  Fresh-shown :
      (dom : Dom) (path : Text) (paths : List Text) (s : S)
      → All (λ q. text_eq path q ≡ false) paths
      → Fresh path (shown virt json evp disk dom paths s)
  Fresh-shown dom path [] s a = tt
  Fresh-shown dom path (q ∷ paths) s a = (a.0, Fresh-shown dom path paths s a.1)

  pub Distinct-shown :
      (dom : Dom) (paths : List Text) (s : S)
      → DistinctPaths paths
      → Distinct (shown virt json evp disk dom paths s)
  Distinct-shown dom [] s d = tt
  Distinct-shown dom (path ∷ paths) s d =
      (Fresh-shown dom path paths s d.0, Distinct-shown dom paths s d.1)

  HexSeen-shown :
      (dom : Dom) (paths : List Text) (s : S) → HexSeen (shown virt json evp disk dom paths s)
  HexSeen-shown dom [] s = tt
  HexSeen-shown dom (path ∷ paths) s = (
    (λ hash e. (file_hash-OneLine virt json evp disk dom path).at s hash (hash_of-ok _ e)),
    HexSeen-shown dom paths s,
  )

  -- The memory behind the start.
  pub initialize-shown :
      (m : FileMonitor) (s : S) {dom : Dom} {s1 : S}
      → IsDisk disk
      → LeavesFile disk virt evp (hash_file m)
      → IsSteady virt json evp disk dom
      → virt.lookup_by_name m.vm_name s ≡ (some dom, s1)
      → (disk.open_write (hash_file m) s1).0 ≡ true
      → All IsCleanPath m.files2watch
      → (initialize_vm_hashes virt json evp disk m s).0
        ≡ ok (record m {
          file_hashes =
              assign (readable (shown virt json evp disk dom m.files2watch s1)) m.file_hashes;
        })
  unfolding initialize_vm_hashes store_file_hash
  initialize-shown m s {dom} {s1} D L steady found opened clean =
      let s2 = (disk.open_write (hash_file m) s1).1 in
      let files = m.files2watch in
      let empty = D.read-open_write (hash_file m) s1 opened in
      let (_, _, q, _, _, _) =
        store_files-print virt json evp disk D (hash_file m) L dom files [] s2 empty in
      let r = store_files-shown virt json evp disk dom steady D (hash_file m) L files [] s2 empty in
      let same =
        shown-same virt json evp disk dom files s1 s2
          (λ path. steady.open_write (hash_file m) path s1) in
      let now = shown virt json evp disk dom files s2 in
      let c : All IsClean (readable now) =
        readable-IsClean now (rw (paths_of-shown virt json evp disk dom files s2) clean)
          (HexSeen-shown dom files s2) in
      let printed : disk.read (hash_file m) (store_file_hash virt json evp disk m s).1
          ≡ some (print (readable now)) =
        rw (found, opened, q) ((L.domain_free dom).at _ ∙ r) in
      let stored : (store_file_hash virt json evp disk m s).0 ≡ ok tt =
        rw (found, opened, q) refl in
      rw
        (
          stored,
          load_stored_hashes-read virt json evp disk D m L _ printed,
          load_lines-print (readable now) m.file_hashes c,
        )
        (ap (λ x. ok (record m { file_hashes = assign (readable x) m.file_hashes })) same)

  -- Where the guest is steady, the domain is found both times, the hash file opens, and the watched paths
  -- are distinct and have no `": "` and no newline, the first round behind the start of a new object
  -- returns a value, and it reports a change exactly when some watched file has a hash that it did not
  -- have at the start.
  pub first_round-exact :
      (files : List Text) (hash_path vm_name : Text) (s t : S) {dom dom' : Dom} {s1 t1 : S}
      {m : FileMonitor}
      → IsDisk disk
      → LeavesFile disk virt evp (hash_file (new_monitor files hash_path vm_name))
      → IsSteady virt json evp disk dom
      → IsSteady virt json evp disk dom'
      → DistinctPaths files
      → All IsCleanPath files
      → virt.lookup_by_name vm_name s ≡ (some dom, s1)
      → (disk.open_write (hash_file (new_monitor files hash_path vm_name)) s1).0 ≡ true
      → (initialize_vm_hashes virt json evp disk (new_monitor files hash_path vm_name) s).0 ≡ ok m
      → virt.lookup_by_name vm_name t ≡ (some dom', t1)
      → (changed : Bool) × (m' : FileMonitor) × ((has_file_changed virt json evp m t).0
          ≡ ok (changed, m'))
        × ((changed ≡ true)
            ↔ ChangedSince
                (shown virt json evp disk dom files s1)
                (shown virt json evp disk dom' files t1))
  first_round-exact files hash_path vm_name s t {dom} {dom'} {s1} {t1} {m} D L steady steady'
        distinct clean found opened started found' =
      let m0 = new_monitor files hash_path vm_name in
      let before = shown virt json evp disk dom files s1 in
      let m1 : FileMonitor = record m0 { file_hashes = assign (readable before) [] } in
      let whole : (initialize_vm_hashes virt json evp disk m0 s).0 ≡ ok m1 =
        initialize-shown m0 s D L steady found opened clean in
      let same : m ≡ m1 = cc (whole, started) in
      let (changed, m', answer, exact) =
        has_file_changed-exact virt json evp m1 t found'
          (observe-shown virt json evp disk dom' steady' files t1)
          (Distinct-shown dom' files t1 distinct) in
      (
        changed,
        m',
        rw same answer,
        iff_trans exact (
            Differs-ChangedSince before (shown virt json evp disk dom' files t1)
              (Distinct-shown dom files s1 distinct)),
      )
