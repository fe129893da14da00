-- ===== src/FileMonitor/Changes.antt =====
-- The comparison of the observed hashes with those in memory: when `hasFileChanged` reports a change,
-- and what it remembers.
use idsproject.Base.{
  Text, text_eq, text_eq_iff, lookup, lookup-insert, insert, Bool, true, false, ◌||◌, Option, none,
  some, [], ◌∷◌, ◌≡◌, ◌≢◌, ◌↔◌, ◌⊎◌, inl, inr, refl, arith, ok, iff_trans, iff_refl, sum_iff,
  sum_assoc, or_iff, ◌∙◌, ap,
}
use idsproject.Host.{Libvirt, JsonC, Evp}
use idsproject.FileMonitor.{FileMonitor, Hashes, note_hash, is_change, has_file_changed}
use idsproject.FileMonitor.Observe.{
  Seen, SeenAs, Fresh, Distinct, Differs, note_all, observe, check_files-observe,
}

is_change_iff : (o : Option Text) (hash : Text) → (is_change o hash ≡ true) ↔ (o ≢ some hash)
unfolding is_change
is_change_iff none hash = (λ _. λ e. cc, λ _. refl)
is_change_iff (some old) hash = ground (arith, text_eq_iff old hash)

pub Fresh-SeenAs :
    (p q hash : Text) (seen : Seen) → Fresh p seen → SeenAs q hash seen → text_eq p q ≡ false
Fresh-SeenAs p q hash [] f h = elim h [ ]
Fresh-SeenAs p q hash (_ ∷ seen) f (inl e) = ground arith
Fresh-SeenAs p q hash (_ ∷ seen) f (inr h) = Fresh-SeenAs p q hash seen f.1 h

-- An entry for another path leaves the comparison of the rest as it was.
Differs-insert :
    (p hash : Text) (seen : Seen) (known : Hashes)
    → Fresh p seen
    → Differs seen (insert p hash known) ↔ Differs seen known
Differs-insert p hash seen known f = (
  λ (q, h, at, ne). (
    q,
    h,
    at,
    λ e. ne (ground (arith, lookup-insert p q hash known, Fresh-SeenAs p q h seen f at)),
  ),
  λ (q, h, at, ne). (
    q,
    h,
    at,
    λ e. ne (ground (arith, lookup-insert p q hash known, Fresh-SeenAs p q h seen f at)),
  ),
)

Differs-cons_none :
    (p : Text) (seen : Seen) (known : Hashes)
    → Differs ((p, none) ∷ seen) known ↔ Differs seen known
Differs-cons_none p seen known = (there, λ (q, h, at, ne). (q, h, inr at, ne))
  where
    there : Differs ((p, none) ∷ seen) known → Differs seen known
    there (q, h, inl e, ne) = absurd (cc)
    there (q, h, inr at, ne) = (q, h, at, ne)

Differs-cons_some :
    (p hash : Text) (seen : Seen) (known : Hashes)
    → Differs ((p, some hash) ∷ seen) known ↔ ((lookup p known ≢ some hash) ⊎ Differs seen known)
Differs-cons_some p hash seen known = (there, back)
  where
    there :
        Differs ((p, some hash) ∷ seen) known → (lookup p known ≢ some hash) ⊎ Differs seen known
    there (q, h, inl e, ne) = inl (λ k. ne (ground arith))
    there (q, h, inr at, ne) = inr (q, h, at, ne)

    back : (lookup p known ≢ some hash) ⊎ Differs seen known → Differs ((p, some hash) ∷ seen) known
    back (inl ne) = (p, hash, inl (refl, refl), ne)
    back (inr (q, h, at, ne)) = (q, h, inr at, ne)

pub note_all-flag :
    (seen : Seen) (known : Hashes) (changed : Bool)
    → Distinct seen
    → ((note_all seen (known, changed)).1 ≡ true) ↔ ((changed ≡ true) ⊎ Differs seen known)
unfolding note_hash
note_all-flag [] known changed d = (λ h. inl h, back)
  where
    back : (changed ≡ true) ⊎ Differs [] known → changed ≡ true
    back (inl e) = e
    back (inr (_, _, at, _)) = elim at [ ]
note_all-flag ((p, none) ∷ seen) known changed d =
    iff_trans (note_all-flag seen known changed d.1)
      (sum_iff iff_refl (let e = Differs-cons_none p seen known in (e.1, e.0)))
note_all-flag ((p, some hash) ∷ seen) known changed d =
    iff_trans
      (note_all-flag seen (insert p hash known) (changed || is_change (lookup p known) hash) d.1)
      (iff_trans
        (sum_iff
          (iff_trans (or_iff changed (is_change (lookup p known) hash))
            (sum_iff iff_refl (is_change_iff (lookup p known) hash)))
          (Differs-insert p hash seen known d.0))
        (iff_trans sum_assoc
          (sum_iff iff_refl (let e = Differs-cons_some p hash seen known in (e.1, e.0)))))

note_all-lookup-Fresh :
    (q : Text) (seen : Seen) (state : Hashes × Bool)
    → Fresh q seen
    → lookup q (note_all seen state).0 ≡ lookup q state.0
unfolding note_hash
note_all-lookup-Fresh q [] state f = refl
note_all-lookup-Fresh q ((p, none) ∷ seen) state f = note_all-lookup-Fresh q seen state f.1
note_all-lookup-Fresh q ((p, some hash) ∷ seen) (known, changed) f =
    note_all-lookup-Fresh q seen (insert p hash known, changed || is_change (lookup p known) hash)
      f.1
    ∙ ground (arith, lookup-insert p q hash known, text_eq_iff p q, text_eq_iff q p)

-- What was seen is remembered.
pub note_all-lookup :
    (q hash : Text) (seen : Seen) (state : Hashes × Bool)
    → Distinct seen
    → SeenAs q hash seen
    → lookup q (note_all seen state).0 ≡ some hash
unfolding note_hash
note_all-lookup q hash [] state d h = elim h [ ]
note_all-lookup q hash ((p, none) ∷ seen) state d (inl e) = absurd (cc)
note_all-lookup q hash ((p, some k) ∷ seen) (known, changed) d (inl e) =
    note_all-lookup-Fresh q seen (insert p k known, changed || is_change (lookup p known) k)
      (ground arith)
    ∙ ground (arith, lookup-insert p q k known, text_eq_iff p q)
note_all-lookup q hash ((p, none) ∷ seen) state d (inr h) = note_all-lookup q hash seen state d.1 h
note_all-lookup q hash ((p, some k) ∷ seen) (known, changed) d (inr h) =
    note_all-lookup q hash seen (insert p k known, changed || is_change (lookup p known) k) d.1 h

module _ {S Dom J Ctx : Type 0} (virt : Libvirt S Dom) (json : JsonC J) (evp : Evp S Ctx) where
  -- The call is the pure comparison of what it observes, and the domain is freed behind it.
  pub has_file_changed-eq :
      (m : FileMonitor) (s : S) {dom : Dom} {s1 : S} {seen : Seen}
      → virt.lookup_by_name m.vm_name s ≡ (some dom, s1)
      → (observe virt json evp dom m.files2watch s1).0 ≡ ok seen
      → has_file_changed virt json evp m s ≡ (
        ok (
          (note_all seen (m.file_hashes, false)).1,
          record m { file_hashes = (note_all seen (m.file_hashes, false)).0 },
        ),
        virt.domain_free dom (observe virt json evp dom m.files2watch s1).1,
      )
  unfolding has_file_changed
  has_file_changed-eq m s {dom} {s1} {seen} found saw =
      let (seen', p, q) =
        check_files-observe virt json evp dom m.files2watch (m.file_hashes, false) s1 in
      let same : seen' ≡ seen = cc (p, saw) in
      rw (found, q)
        (ap
          (λ t. (
            ok (
              (note_all t (m.file_hashes, false)).1,
              record m { file_hashes = (note_all t (m.file_hashes, false)).0 },
            ),
            virt.domain_free dom (observe virt json evp dom m.files2watch s1).1,
          ))
          same)
