-- ===== src/Processes/Sorting.antt =====
-- What the list of a guest's processes holds, and in which order.
use mathlib.Core.List.{Perm}
use mathlib.Core.List.Perm
use idsproject.Base.{
  Text, ℕ, true, false, Option, none, some, List, [], ◌∷◌, ◌≡◌, arith, All, Bool-cases, inl, inr,
  ◌⊎◌, Run, ok, attempt, bind_value, or_value_value, attempt_value, subst,
}
use idsproject.Host.{Libvirt, Nlohmann, Crypto, Doubles}
use idsproject.ProcessMonitor.{with_domain, free_behind}
use idsproject.Processes.{
  ProcInfo, GuestProcessInfo, insert_by_cpu, sort_by_cpu, fetch_process_list, start_command,
  wait_for_execution, binary_of, consed, with_binaries, list_guest_processes, sorted_processes,
  readlink_cmd,
}

-- The order of numbers, as `>` on values that are no NaN has it.
pub record IsOrder {F : Type 0} (doubles : Doubles F) : Type 0 where
  pub asym : (a b : F) → doubles.gt a b ≡ true → doubles.gt b a ≡ false
  pub trans : (a b c : F) → doubles.gt b a ≡ false → doubles.gt c b ≡ false → doubles.gt c a ≡ false

module _ {F : Type 0} (doubles : Doubles F) where
  -- No later process has a greater use of the CPU.
  abbrev pub IsDescending : List (GuestProcessInfo F) → Type 0
  IsDescending [] = Unit
  IsDescending (x ∷ xs) = All (λ y. doubles.gt y.cpu x.cpu ≡ false) xs × IsDescending xs

  insert-All :
      (P : GuestProcessInfo F → Type 0) (x : GuestProcessInfo F) (ys : List (GuestProcessInfo F))
      → P x
      → All P ys
      → All P (insert_by_cpu doubles x ys)
  unfolding insert_by_cpu
  insert-All P x [] h a = (h, tt)
  insert-All P x (y ∷ ys) h a = elim (Bool-cases (doubles.gt y.cpu x.cpu)) [
    | inl more ↦ rw more (a.0, insert-All P x ys h a.1)
    | inr less ↦ rw less (h, a)
  ]

  insert-Perm :
      (x : GuestProcessInfo F) (ys : List (GuestProcessInfo F))
      → Perm (insert_by_cpu doubles x ys) (x ∷ ys)
  unfolding insert_by_cpu
  insert-Perm x [] = Perm.rfl
  insert-Perm x (y ∷ ys) = elim (Bool-cases (doubles.gt y.cpu x.cpu)) [
    | inl more ↦ rw more (Perm.trans (Perm.cons y (insert-Perm x ys)) (Perm.swap x y ys))
    | inr less ↦ rw less Perm.rfl
  ]

  sort-Perm : (xs : List (GuestProcessInfo F)) → Perm (sort_by_cpu doubles xs) xs
  unfolding sort_by_cpu
  sort-Perm [] = Perm.rfl
  sort-Perm (x ∷ xs) =
      Perm.trans (insert-Perm x (sort_by_cpu doubles xs)) (Perm.cons x (sort-Perm xs))

  module _ (O : IsOrder doubles) where
    below_head :
        (x y : GuestProcessInfo F) (ys : List (GuestProcessInfo F))
        → doubles.gt y.cpu x.cpu ≡ false
        → All (λ z. doubles.gt z.cpu y.cpu ≡ false) ys
        → All (λ z. doubles.gt z.cpu x.cpu ≡ false) ys
    below_head x y [] h a = tt
    below_head x y (z ∷ ys) h a = (O.trans x.cpu y.cpu z.cpu h a.0, below_head x y ys h a.1)

    insert-Descending :
        (x : GuestProcessInfo F) (ys : List (GuestProcessInfo F))
        → IsDescending ys
        → IsDescending (insert_by_cpu doubles x ys)
    unfolding insert_by_cpu
    insert-Descending x [] d = (tt, tt)
    insert-Descending x (y ∷ ys) d = elim (Bool-cases (doubles.gt y.cpu x.cpu)) [
      | inl more ↦ rw more (
        insert-All (λ z. doubles.gt z.cpu y.cpu ≡ false) x ys (O.asym y.cpu x.cpu more) d.0,
        insert-Descending x ys d.1,
      )
      | inr less ↦ rw less ((less, below_head x y ys less d.0), d)
    ]

    sort-IsDescending : (xs : List (GuestProcessInfo F)) → IsDescending (sort_by_cpu doubles xs)
    unfolding sort_by_cpu
    sort-IsDescending [] = tt
    sort-IsDescending (x ∷ xs) = insert-Descending x (sort_by_cpu doubles xs) (sort-IsDescending xs)

-- Some of the processes, in their order, each with a path.
pub data Picked {F : Type 0} : List (GuestProcessInfo F) → List (ProcInfo F) → Type 0 where
  done : Picked [] []
  skip :
      {gs : List (GuestProcessInfo F)} {p : ProcInfo F} {ps : List (ProcInfo F)}
      → Picked gs ps
      → Picked gs (p ∷ ps)
  take :
      {g : GuestProcessInfo F} {gs : List (GuestProcessInfo F)} {p : ProcInfo F}
      {ps : List (ProcInfo F)}
      → (g.pid ≡ p.pid) × (g.name ≡ p.name) × (g.cpu ≡ p.cpu)
      → Picked gs ps
      → Picked (g ∷ gs) (p ∷ ps)

module _ {S Dom A : Type 0} (virt : Libvirt S Dom) where
  free_behind_value :
      (o : Option Dom) (body : Dom → Run S A) (s : S) {a : A}
      → (free_behind virt o body s).0 ≡ ok a
      → (dom : Dom) × ((body dom s).0 ≡ ok a)
  unfolding free_behind
  free_behind_value none body s e = absurd (cc)
  free_behind_value (some dom) body s e = (dom, e)

  with_domain_value :
      (vm_name : Text) (body : Dom → Run S A) (s : S) {a : A}
      → (with_domain virt vm_name body s).0 ≡ ok a
      → (dom : Dom) × (t : S) × ((body dom t).0 ≡ ok a)
  unfolding with_domain
  with_domain_value vm_name body s e =
      let (o, t) = virt.lookup_by_name vm_name s in
      let (dom, h) = free_behind_value o body t e in (dom, t, h)

module _ {S Dom J F : Type 0} (virt : Libvirt S Dom) (json : Nlohmann J) (crypto : Crypto)
    (sleep_ms : ℕ → S → S) (doubles : Doubles F) where
  binary_of-fields :
      (fuel : ℕ) (dom : Dom) (p : ProcInfo F) (s : S) {g : GuestProcessInfo F}
      → (binary_of virt json crypto sleep_ms doubles fuel dom p s).0 ≡ ok g
      → (g.pid ≡ p.pid) × (g.name ≡ p.name) × (g.cpu ≡ p.cpu)
  unfolding binary_of
  binary_of-fields fuel dom p s e =
      let (i, a, e1) =
        bind_value (start_command virt json crypto sleep_ms dom (readlink_cmd p.pid)) _ s e in
      let (out, b, e2) =
        bind_value (wait_for_execution virt json crypto sleep_ms fuel dom i) _ _ e1 in
      ground arith

  consed-Picked :
      (o : Option (GuestProcessInfo F)) (p : ProcInfo F) {gs : List (GuestProcessInfo F)}
      {ps : List (ProcInfo F)}
      → (o ≡ none)
        ⊎ ((g : GuestProcessInfo F) × (o ≡ some g)
            × ((g.pid ≡ p.pid) × (g.name ≡ p.name) × (g.cpu ≡ p.cpu)))
      → Picked gs ps
      → Picked (consed virt json crypto sleep_ms doubles o gs) (p ∷ ps)
  unfolding consed
  consed-Picked o p (inl e) k = rw e (skip k)
  consed-Picked o p (inr (g, e, fields)) k = rw e (take fields k)

  with_binaries-Picked :
      (fuel : ℕ) (dom : Dom) (ps : List (ProcInfo F)) (s : S) {gs : List (GuestProcessInfo F)}
      → (with_binaries virt json crypto sleep_ms doubles fuel dom ps s).0 ≡ ok gs
      → Picked gs ps
  unfolding with_binaries
  with_binaries-Picked fuel dom [] s {gs} e =
      let empty : [] ≡ gs = cc e in subst (λ l. Picked l []) empty done
  with_binaries-Picked fuel dom (p ∷ ps) s {gs} e =
      let (o, a, e1) =
        bind_value (attempt (binary_of virt json crypto sleep_ms doubles fuel dom p)) _ s e in
      let (later, b, e2) =
        bind_value (with_binaries virt json crypto sleep_ms doubles fuel dom ps) _ _ e1 in
      let ih = with_binaries-Picked fuel dom ps _ b in
      let same : consed virt json crypto sleep_ms doubles o later ≡ gs = cc e2 in
      subst (λ l. Picked l (p ∷ ps)) same (consed-Picked o p (seen o a) ih)
    where
      seen :
          (o : Option (GuestProcessInfo F))
          → (attempt (binary_of virt json crypto sleep_ms doubles fuel dom p) s).0 ≡ ok o
          → (o ≡ none)
            ⊎ ((g : GuestProcessInfo F) × (o ≡ some g)
                × ((g.pid ≡ p.pid) × (g.name ≡ p.name) × (g.cpu ≡ p.cpu)))
      seen o a = elim (attempt_value (binary_of virt json crypto sleep_ms doubles fuel dom p) s a) [
        | inl n ↦ inl n
        | inr (g, e, r) ↦ inr (g, e, binary_of-fields fuel dom p s r)
      ]

  -- A list that is returned is empty, or it is a permutation of some of the processes that the
  -- guest's `ps` lists, with their numbers, names and use of the CPU, and in descending order of that
  -- use, where `>` is an order.
  pub list_guest_processes-Descending :
      (fuel : ℕ) (vm_name : Text) (s : S) {result : List (GuestProcessInfo F)}
      → IsOrder doubles
      → (list_guest_processes virt json crypto sleep_ms doubles fuel vm_name s).0 ≡ ok result
      → (result ≡ [])
        ⊎ ((procs : List (ProcInfo F)) × (listed : List (GuestProcessInfo F)) × ((fetch_process_list
                virt json crypto sleep_ms doubles fuel vm_name s).0
              ≡ ok procs)
            × Picked listed procs
            × Perm result listed
            × IsDescending doubles result)
  unfolding list_guest_processes sorted_processes
  list_guest_processes-Descending fuel vm_name s {result} O e =
      elim (or_value_value [] (sorted_processes virt json crypto sleep_ms doubles fuel vm_name) s
        e) [
          | inr failure ↦ inl failure
          | inl own ↦
              let (procs, fetched, e1) =
                bind_value (fetch_process_list virt json crypto sleep_ms doubles fuel vm_name) _ s
                  own in
              let (listed, all, e2) =
                bind_value
                  (with_domain virt vm_name
                    (λ dom. with_binaries virt json crypto sleep_ms doubles fuel dom procs))
                  _ _ e1 in
              let (dom, t, found) =
                with_domain_value virt vm_name
                  (λ dom. with_binaries virt json crypto sleep_ms doubles fuel dom procs) _ all in
              let same : sort_by_cpu doubles listed ≡ result = cc e2 in
              inr (
                procs,
                listed,
                fetched,
                with_binaries-Picked fuel dom procs t found,
                subst (λ l. Perm l listed) same (sort-Perm doubles listed),
                subst (IsDescending doubles) same (sort-IsDescending doubles O listed),
              )
        ]
