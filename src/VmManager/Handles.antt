-- ===== src/VmManager/Handles.antt =====
-- The handles of domains that `get_vm_names` takes.
use idsproject.Base.{
  Text, ℕ, suc, ℤ, pos, ltb_ℤ, none, some, List, [], ◌∷◌, ◌≡◌, refl, ◌∙◌, Bool-cases, Option-cases,
  inl, inr, ok, ◌⊎◌, true,
}
use idsproject.Host.{Connections}
use idsproject.VmManager.{VmManager, name_of, names_of, pushed, get_vm_names}

-- What libvirt documents of the handles that are out: a lookup that finds a domain gives one more, and
-- a release takes one back.
pub record IsCounted {S Conn Dom : Type 0} (virt : Connections S Conn Dom) (handles : S → ℕ)
    : Type 0 where
  pub count_all : (conn : Conn) (s : S) → handles (virt.count_all conn s).1 ≡ handles s
  pub list_domains :
      (conn : Conn) (n : ℤ) (s : S) → handles (virt.list_domains conn n s).1 ≡ handles s
  pub lookup_some :
      (conn : Conn) (id : ℤ) (s : S) (dom : Dom)
      → (virt.lookup_by_id conn id s).0 ≡ some dom
      → handles (virt.lookup_by_id conn id s).1 ≡ suc (handles s)
  pub lookup_none :
      (conn : Conn) (id : ℤ) (s : S)
      → (virt.lookup_by_id conn id s).0 ≡ none
      → handles (virt.lookup_by_id conn id s).1 ≡ handles s
  pub release : (dom : Dom) (s : S) (n : ℕ) → handles s ≡ suc n → handles (virt.release dom s) ≡ n

module _ {S Conn Dom : Type 0} (virt : Connections S Conn Dom) (handles : S → ℕ)
    (C : IsCounted virt handles) where
  names_of-balanced :
      (conn : Conn) (ids : List ℤ) (s : S)
      → (names : List Text) × ((names_of virt conn ids s).0 ≡ ok names)
        × (handles (names_of virt conn ids s).1 ≡ handles s)
  unfolding names_of name_of
  names_of-balanced conn [] s = ([], refl, refl)
  names_of-balanced conn (id ∷ ids) s = elim (Option-cases (virt.lookup_by_id conn id s).0) [
    | inl e ↦
        let (later, r, h) = names_of-balanced conn ids (virt.lookup_by_id conn id s).1 in
        (
          pushed virt none later,
          rw (names_of, e, r),
          rw (names_of, e, r) (h ∙ C.lookup_none conn id s e),
        )
    | inr (dom, e) ↦
        let t = (virt.lookup_by_id conn id s).1 in
        let (later, r, h) = names_of-balanced conn ids (virt.release dom t) in
        let given = C.release dom t (handles s) (C.lookup_some conn id s dom e) in
        (
          pushed virt (virt.get_name dom t) later,
          rw (names_of, e, r),
          rw (names_of, e, r) (h ∙ given),
        )
  ]

  -- No connection, or one of the two calls that list the domains fails.
  abbrev pub CannotList : VmManager Conn → S → Type 0
  CannotList none s = Unit
  CannotList (some conn) s =
      (ltb_ℤ (virt.count_all conn s).0 (pos 0) ≡ true)
      ⊎ ((virt.list_domains conn (virt.count_all conn s).0 (virt.count_all conn s).1).0 ≡ none)

  -- The list of names always comes back, empty where there is no connection or one of the two calls that
  -- list the domains fails, and behind the call as many handles of domains are out as before it, by any
  -- count that the calls change as libvirt documents.
  pub get_vm_names-balanced :
      (manager : VmManager Conn) (s : S)
      → (names : List Text) × ((get_vm_names virt manager s).0 ≡ ok names)
        × (CannotList manager s → names ≡ [])
        × (handles (get_vm_names virt manager s).1 ≡ handles s)
  unfolding get_vm_names
  get_vm_names-balanced none s = ([], refl, λ _. refl, refl)
  get_vm_names-balanced (some conn) s =
      let (total, s1) = virt.count_all conn s in
      let kept = C.count_all conn s in
      elim (Bool-cases (ltb_ℤ total (pos 0))) [
        | inl negative ↦
            ([], rw (get_vm_names, negative), λ _. refl, rw (get_vm_names, negative) kept)
        | inr enough ↦ elim (Option-cases (virt.list_domains conn total s1).0) [
          | inl e ↦ (
            [],
            rw (get_vm_names, enough, e),
            λ _. refl,
            rw (get_vm_names, enough, e) (C.list_domains conn total s1 ∙ kept),
          )
          | inr (ids, e) ↦
              let (names, r, h) = names_of-balanced conn ids (virt.list_domains conn total s1).1 in
              (
                names,
                rw (get_vm_names, enough, e, r),
                λ failed. elim failed [
                  | inl f ↦ absurd (cc (f, enough))
                  | inr f ↦ absurd (cc (f, e))
                ],
                rw (get_vm_names, enough, e) (h ∙ (C.list_domains conn total s1 ∙ kept)),
              )
        ]
      ]
