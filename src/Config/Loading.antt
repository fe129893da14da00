-- ===== src/Config/Loading.antt =====
-- What loading a configuration file promises.
use mathlib.Core.List.{append-nil, append_assoc}
use idsproject.Base.{
  Text, ℤ, codes, String, Bool, Option, none, some, List, [], ◌∷◌, ◌++◌, ◌≡◌, refl, sym, ◌∙◌, ap,
  arith, ℕ, to_u16, map, if◌then◌else◌, Run, ok, ◌>>◌, ◌>>=◌, lift, need_or_throw, effect,
  bind-eq-ok, Bool-cases, Option-cases, inl, inr,
}
use idsproject.Host.{Nlohmann}
use idsproject.Config.{
  range_end, Config, NetworkFilter, default_filter, if_contains, assign_if, within, load_range,
  load_filter, load_filters, load_monitoring, load_network,
}

abbrev pub chosen : {A : Type 0} → Option A → A → A
chosen none a = a
chosen (some v) a = v

abbrev pub over : {A C : Type 0} → Option A → (A → C → C) → C → C
over none set c = c
over (some v) set c = set v c

over_six :
    (a : Option Bool) (b : Option ℤ) (d : Option Bool) (f : Option (List Text)) (g h : Option Text)
    (c : Config)
    → over h
        (λ v c. record c { guest_file_path = v })
        (over g
          (λ v c. record c { hash_path = v })
          (over f
            (λ v c. record c { files2watch = v })
            (over d
              (λ v c. record c { monitor_files = v })
              (over b
                (λ v c. record c { process_interval = v })
                (over a (λ v c. record c { monitor_processes = v }) c)))))
      ≡ record c {
        monitor_processes = chosen a c.monitor_processes;
        process_interval = chosen b c.process_interval;
        monitor_files = chosen d c.monitor_files;
        files2watch = chosen f c.files2watch;
        hash_path = chosen g c.hash_path;
        guest_file_path = chosen h c.guest_file_path;
      }
over_six a b d f g h c = ground arith

module _ {J : Type 0} (json : Nlohmann J) where
  -- The value of a key, where the object has the key and the value converts.
  abbrev pub value : {A : Type 0} → J → String → (J → Option A) → Option A
  value j key get =
      if json.contains j (codes key)
      then elim (json.at_key j (codes key)) [ none ↦ none | some v ↦ get v ]
      else none

  pub assign_if-ok :
      {A C : Type 0} (j : J) (key : String) (get : J → Option A) (set : A → C → C) (c c' : C)
      → assign_if json j key get set c ≡ (ok tt, c')
      → c' ≡ over (value j key get) set c
  unfolding assign_if
  assign_if-ok j key get set c c' e = ground arith

  seq-assign :
      {A B C : Type 0} (j : J) (key : String) (get : J → Option A) (set : A → C → C) (k : Run C B)
      (c c' : C) (b : B)
      → (assign_if json j key get set >> k) c ≡ (ok b, c')
      → k (over (value j key get) set c) ≡ (ok b, c')
  unfolding assign_if
  seq-assign j key get set k c c' b e = ground arith

  pub load_monitoring-ok :
      (m : J) (c c' : Config)
      → load_monitoring json m c ≡ (ok tt, c')
      → c' ≡ record c {
        monitor_processes = chosen (value m "Monitor_Processes" json.get_bool) c.monitor_processes;
        process_interval = chosen (value m "Process_Interval" json.get_int) c.process_interval;
        monitor_files = chosen (value m "Monitor_Files" json.get_bool) c.monitor_files;
        files2watch = chosen (value m "Files2Watch" json.get_strings) c.files2watch;
        hash_path = chosen (value m "Hash_Path" json.get_string) c.hash_path;
        guest_file_path = chosen (value m "Guest_File_Path" json.get_string) c.guest_file_path;
      }
  unfolding load_monitoring
  load_monitoring-ok m c c' e =
      let e1 = seq-assign m "Monitor_Processes" json.get_bool _ _ c c' tt e in
      let e2 = seq-assign m "Process_Interval" json.get_int _ _ _ c' tt e1 in
      let e3 = seq-assign m "Monitor_Files" json.get_bool _ _ _ c' tt e2 in
      let e4 = seq-assign m "Files2Watch" json.get_strings _ _ _ c' tt e3 in
      let e5 = seq-assign m "Hash_Path" json.get_string _ _ _ c' tt e4 in
      let e6 = assign_if-ok m "Guest_File_Path" json.get_string _ _ c' e5 in
      e6 ∙ over_six _ _ _ _ _ _ c

  abbrev pub section : J → String → Option J
  section j key = if json.contains j (codes key) then json.at_key j (codes key) else none

  -- The value of a key in a section of the document, where there is one.
  abbrev pub setting : {A : Type 0} → Option J → String → (J → Option A) → Option A
  setting none key get = none
  setting (some p) key get = value p key get

  abbrev pub InSection : Option J → (J → Run Config (Unit {0})) → Config → Config → Type 0
  InSection none body c c' = c' ≡ c
  InSection (some p) body c c' = body p c ≡ (ok tt, c')

  pub seq-within :
      {B : Type 0} (j : J) (key : String) (body : J → Run Config (Unit {0})) (k : Run Config B)
      (c c' : Config) (b : B)
      → (within json j key body >> k) c ≡ (ok b, c')
      → (d : Config) × InSection (section j key) body c d × (k d ≡ (ok b, c'))
  unfolding within
  seq-within j key body k c c' b e = elim (Bool-cases (json.contains j (codes key))) [
    | inr lacks ↦ (c, rw lacks refl, ground arith)
    | inl has ↦ elim (Option-cases (json.at_key j (codes key))) [
      | inl absent ↦ absurd (ground arith)
      | inr (p, at) ↦
          let (u, x, y) = bind-eq-ok (body p) (λ _. k) c {b = b} {s' = c'} (ground arith) in
          ((body p c).1, rw (has, at) (ap (λ r. (r, (body p c).1)) x), y)
    ]
  ]

  -- One end of the range under "port_range", modulo 2^16.
  abbrev end_of : J → ℕ → Option ℕ
  end_of range i = elim (json.at_index range i) [
    | none ↦ none
    | some v ↦ elim (json.get_int v) [ none ↦ none | some n ↦ some (to_u16 n) ]
  ]

  abbrev range_of : J → ℕ → ℕ
  range_of f i = elim (section f "port_range") [
    | none ↦ 0
    | some range ↦ if json.is_array range then chosen (end_of range i) 0 else 0
  ]

  -- What a filter's object says, key by key, and what stands for a key that it lacks.
  abbrev pub filter_of : J → NetworkFilter
  filter_of f = record {
    protocol = chosen (json.value_string f (codes "protocol") []) [];
    ports = chosen (value f "ports" json.get_ints) [];
    range_first = range_of f 0;
    range_second = range_of f 1;
    ip = chosen (json.value_string f (codes "ip") []) [];
  }

  need_or_throw-known :
      {A B C : Type 0} (o : Option A) (k : A → Run C B) (c : C) {r : B} {c' : C}
      → (need_or_throw o >>= k) c ≡ (ok r, c')
      → (a : A) × (o ≡ some a) × (k a c ≡ (ok r, c'))
  need_or_throw-known none k c e = absurd (cc e)
  need_or_throw-known (some a) k c e = (a, refl, e)

  range_end-ok :
      {B : Type 0} (range : J) (i : ℕ) (k : ℤ → Run NetworkFilter B) (nf nf' : NetworkFilter)
      {r : B}
      → (need_or_throw (range_end json range i) >>= k) nf ≡ (ok r, nf')
      → (n : ℤ) × (end_of range i ≡ some (to_u16 n)) × (k n nf ≡ (ok r, nf'))
  unfolding range_end
  range_end-ok range i k nf nf' e = elim (Option-cases (json.at_index range i)) [
    | inl absent ↦ absurd (ground (arith, e))
    | inr (v, at) ↦ elim (Option-cases (json.get_int v)) [
      | inl no_int ↦ absurd (ground (arith, e))
      | inr (n, got) ↦ (n, ground (arith, at, got), ground (arith, at, got, e))
    ]
  ]

  load_range-ok :
      (f : J) (nf nf' : NetworkFilter)
      → nf.range_first ≡ 0
      → nf.range_second ≡ 0
      → load_range json f nf ≡ (ok tt, nf')
      → nf' ≡ record nf { range_first = range_of f 0; range_second = range_of f 1 }
  unfolding load_range if_contains
  load_range-ok f nf nf' a b e = elim (Bool-cases (json.contains f (codes "port_range"))) [
    | inr lacks ↦ ground (arith, e)
    | inl has ↦ elim (Option-cases (json.at_key f (codes "port_range"))) [
      | inl absent ↦ absurd (ground (arith, e))
      | inr (range, at) ↦ elim (Bool-cases (json.is_array range)) [
        | inr no_array ↦ ground (arith, e)
        | inl array ↦
            let e0 : (do
              first ← need_or_throw (range_end json range 0)
              effect (λ (nf : NetworkFilter). record nf { range_first = to_u16 first })
              second ← need_or_throw (range_end json range 1)
              effect (λ (nf : NetworkFilter). record nf { range_second = to_u16 second }))
                  nf
                ≡ (ok tt, nf') =
              ground (arith, has, at, array, e) in
            let (first, x, e1) = range_end-ok range 0 _ nf nf' e0 in
            let (second, y, e2) =
              range_end-ok range 1 _ (record nf { range_first = to_u16 first }) nf' e1 in
            ground (arith, has, at, array, x, y, e2)
      ]
    ]
  ]

  load_filter-ok :
      (f : J) (nf : NetworkFilter)
      → load_filter json f default_filter ≡ (ok tt, nf)
      → nf ≡ filter_of f
  unfolding load_filter
  load_filter-ok f nf e =
      let named : Run NetworkFilter (Unit {0}) = (do
        ip ← need_or_throw (json.value_string f (codes "ip") [])
        effect (λ (nf : NetworkFilter). record nf { ip = ip })) in
      let (protocol, p, e1) =
        need_or_throw-known (json.value_string f (codes "protocol") []) _ default_filter e in
      let nf1 : NetworkFilter = record default_filter { protocol = protocol } in
      let e2 =
        seq-assign f "ports" json.get_ints (λ v (nf : NetworkFilter). record nf { ports = v })
          (load_range json f >> named) nf1 nf tt e1 in
      let nf2 : NetworkFilter = record nf1 { ports = chosen (value f "ports" json.get_ints) [] } in
      let at : over (value f "ports" json.get_ints)
            (λ v (nf : NetworkFilter). record nf { ports = v }) nf1
          ≡ nf2 =
        ground arith in
      let (u, r, e3) =
        bind-eq-ok (load_range json f) (λ _. named) nf2
          (ap (load_range json f >> named) (sym at) ∙ e2) in
      let nf3 : NetworkFilter = record nf2 {
        range_first = range_of f 0;
        range_second = range_of f 1;
      } in
      let ranged : (load_range json f nf2).1 ≡ nf3 =
        load_range-ok f nf2 _ refl refl (ap (λ r. (r, (load_range json f nf2).1)) r) in
      let (ip, q, e4) =
        need_or_throw-known (json.value_string f (codes "ip") []) _ nf3
          (ap named (sym ranged) ∙ e3) in
      sym (ap (λ x. x.1) e4)
      ∙ ap (λ x. record nf3 { protocol = x; ip = ip }) (sym (ap (λ o. chosen o []) p))
      ∙ ap
          (λ x. record nf3 {
            protocol = chosen (json.value_string f (codes "protocol") []) [];
            ip = x;
          })
          (sym (ap (λ o. chosen o []) q))

  load_filters-ok :
      (fs : List J) (c c' : Config)
      → load_filters json fs c ≡ (ok tt, c')
      → c' ≡ record c { network_filters = c.network_filters ++ map filter_of fs }
  unfolding load_filters
  load_filters-ok [] c c' e = ground (arith, append-nil c.network_filters)
  load_filters-ok (f ∷ fs) c c' e =
      let nf = (load_filter json f default_filter).1 in
      let push : Run Config (Unit {0}) = (do
        effect (λ (c : Config). record c { network_filters = c.network_filters ++ nf ∷ [] })
        load_filters json fs) in
      let (u, r, e1) = bind-eq-ok (lift (load_filter json f default_filter).0) (λ _. push) c e in
      let read : nf ≡ filter_of f = load_filter-ok f nf (ap (λ x. (x, nf)) r) in
      let later =
        load_filters-ok fs (record c { network_filters = c.network_filters ++ nf ∷ [] }) c' e1 in
      later
      ∙ ap (λ x. record c { network_filters = x })
          (append_assoc c.network_filters (nf ∷ []) (map filter_of fs))
      ∙ ap (λ x. record c { network_filters = c.network_filters ++ x ∷ map filter_of fs }) read

  -- The filters of a "Network" object, or those of before where it has no array of them.
  abbrev pub filters_of : J → List NetworkFilter → List NetworkFilter
  filters_of n old = elim (section n "Filters") [
    | none ↦ old
    | some v ↦ if json.is_array v then map filter_of (json.elements v) else old
  ]

  pub load_network-ok :
      (n : J) (c c' : Config)
      → load_network json n c ≡ (ok tt, c')
      → c' ≡ record c {
        network_interface = chosen (value n "Interface" json.get_string) c.network_interface;
        network_filters = filters_of n c.network_filters;
      }
  unfolding load_network if_contains
  load_network-ok n c c' e =
      let c1 =
        over (value n "Interface" json.get_string)
          (λ v (d : Config). record d { network_interface = v }) c in
      let e1 = seq-assign n "Interface" json.get_string _ _ c c' tt e in
      let loaded =
        λ (v : J). load_filters-ok (json.elements v) (record c1 { network_filters = [] }) c' in
      elim (Option-cases (json.at_key n (codes "Filters"))) [
        | inl absent ↦ ground (arith, e1)
        | inr (v, at) ↦ ground (arith, e1, loaded v)
      ]
