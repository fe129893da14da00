-- ===== src/Backend/Threads.antt =====
-- The threads that the rounds of the service start.
use idsproject.Base.{
  Text, ℕ, ◌==◌, true, false, any, any-append, map, List, [], ◌∷◌, ◌++◌, ◌≡◌, refl, sym, subst, ◌∙◌,
  ap, arith, if◌then◌else◌, All, Bool-cases, inl, inr,
}
use idsproject.Backend.{Service, new_service, is_monitored, visit, sweep, monitoring_loop}

-- No number stands in the list twice.
abbrev pub Distinct : List ℕ → Type 0
Distinct [] = Unit
Distinct (h ∷ hs) = (any (λ g. g == h) hs ≡ false) × Distinct hs

-- The set is that of the hashes of the threads, each once.
pub record IsConsistent (hasher : Text → ℕ) (service : Service) : Type 0 where
  pub monitored : service.monitored ≡ map hasher service.threads
  pub distinct : Distinct service.monitored

Distinct-snoc :
    (hs : List ℕ) (h : ℕ) → Distinct hs → any (λ g. g == h) hs ≡ false → Distinct (hs ++ h ∷ [])
Distinct-snoc [] h d new = (refl, tt)
Distinct-snoc (g ∷ hs) h (fresh, d) new =
    let rest = any-append (λ x. x == g) hs (h ∷ []) in
    (ground (arith, rest), Distinct-snoc hs h d (ground arith))

map-snoc : (f : Text → ℕ) (xs : List Text) (x : Text) → map f (xs ++ x ∷ []) ≡ map f xs ++ f x ∷ []
map-snoc f [] x = refl
map-snoc f (y ∷ xs) x = ap (◌∷◌ (f y)) (map-snoc f xs x)

module _ (hasher : Text → ℕ) where
  -- Some thread has the name's hash.
  abbrev pub Has : Service → Text → Type 0
  Has service vm_name = is_monitored (hasher vm_name) (map hasher service.threads) ≡ true

  visit-IsConsistent :
      (vm_name : Text) (service : Service)
      → IsConsistent hasher service
      → IsConsistent hasher (visit hasher vm_name service)
  unfolding visit is_monitored
  visit-IsConsistent vm_name service c =
      elim (Bool-cases (is_monitored (hasher vm_name) service.monitored)) [
        | inl met ↦ rw met c
        | inr new ↦ rw new (record {
          monitored =
              ap (λ hs. hs ++ hasher vm_name ∷ []) c.monitored
              ∙ sym (map-snoc hasher service.threads vm_name);
          distinct = Distinct-snoc service.monitored (hasher vm_name) c.distinct new;
        })
      ]

  visit-monitored :
      (vm_name : Text) (service : Service)
      → is_monitored (hasher vm_name) (visit hasher vm_name service).monitored ≡ true
  unfolding visit is_monitored
  visit-monitored vm_name service =
      let extended =
        any-append (λ h. h == hasher vm_name) service.monitored (hasher vm_name ∷ []) in
      ground (arith, extended)

  visit-keeps :
      (h : ℕ) (vm_name : Text) (service : Service)
      → is_monitored h service.monitored ≡ true
      → is_monitored h (visit hasher vm_name service).monitored ≡ true
  unfolding visit is_monitored
  visit-keeps h vm_name service met =
      let extended = any-append (λ g. g == h) service.monitored (hasher vm_name ∷ []) in
      ground (arith, extended)

  sweep-IsConsistent :
      (names : List Text) (service : Service)
      → IsConsistent hasher service
      → IsConsistent hasher (sweep hasher names service)
  unfolding sweep
  sweep-IsConsistent [] service c = c
  sweep-IsConsistent (n ∷ names) service c =
      sweep-IsConsistent names (visit hasher n service) (visit-IsConsistent n service c)

  sweep-keeps :
      (h : ℕ) (names : List Text) (service : Service)
      → is_monitored h service.monitored ≡ true
      → is_monitored h (sweep hasher names service).monitored ≡ true
  unfolding sweep
  sweep-keeps h [] service met = met
  sweep-keeps h (n ∷ names) service met =
      sweep-keeps h names (visit hasher n service) (visit-keeps h n service met)

  -- The set has the hash of each name.
  abbrev AllMet : List Text → Service → Type 0
  AllMet names service = All (λ n. is_monitored (hasher n) service.monitored ≡ true) names

  sweep-AllMet : (names : List Text) (service : Service) → AllMet names (sweep hasher names service)
  unfolding sweep
  sweep-AllMet [] service = tt
  sweep-AllMet (n ∷ names) service = (
    sweep-keeps (hasher n) names (visit hasher n service) (visit-monitored n service),
    sweep-AllMet names (visit hasher n service),
  )

  loop-keeps :
      (h : ℕ) (rounds : List (List Text)) (service : Service)
      → is_monitored h service.monitored ≡ true
      → is_monitored h (monitoring_loop hasher rounds service).monitored ≡ true
  unfolding monitoring_loop
  loop-keeps h [] service met = met
  loop-keeps h (names ∷ rounds) service met =
      loop-keeps h rounds (sweep hasher names service) (sweep-keeps h names service met)

  loop-AllMet_later :
      (names : List Text) (rounds : List (List Text)) (service : Service)
      → AllMet names service
      → AllMet names (monitoring_loop hasher rounds service)
  loop-AllMet_later [] rounds service a = tt
  loop-AllMet_later (n ∷ names) rounds service a =
      (loop-keeps (hasher n) rounds service a.0, loop-AllMet_later names rounds service a.1)

  loop-AllMet :
      (rounds : List (List Text)) (service : Service)
      → All (λ names. AllMet names (monitoring_loop hasher rounds service)) rounds
  unfolding monitoring_loop
  loop-AllMet [] service = tt
  loop-AllMet (names ∷ rounds) service = (
    loop-AllMet_later names rounds (sweep hasher names service) (sweep-AllMet names service),
    loop-AllMet rounds (sweep hasher names service),
  )

  loop-IsConsistent :
      (rounds : List (List Text)) (service : Service)
      → IsConsistent hasher service
      → IsConsistent hasher (monitoring_loop hasher rounds service)
  unfolding monitoring_loop
  loop-IsConsistent [] service c = c
  loop-IsConsistent (names ∷ rounds) service c =
      loop-IsConsistent rounds (sweep hasher names service) (sweep-IsConsistent names service c)

  -- Whatever names the rounds of a new service meet, no two of its threads have names of one hash, so
  -- no machine is monitored twice, and each name that was met has the hash of some thread's name.
  pub monitoring_loop-threads :
      (rounds : List (List Text))
      → Distinct (map hasher (monitoring_loop hasher rounds new_service).threads)
        × All (λ names. All (Has (monitoring_loop hasher rounds new_service)) names) rounds
  monitoring_loop-threads rounds =
      let c = loop-IsConsistent rounds new_service (record { monitored = refl; distinct = tt }) in
      let met = loop-AllMet rounds new_service in
      (
        subst Distinct c.monitored c.distinct,
        subst (λ hs. All (λ names. All (λ n. is_monitored (hasher n) hs ≡ true) names) rounds)
            c.monitored met,
      )

  -- The threads whose names have this hash, in order.
  abbrev pub threads_of : ℕ → List Text → List Text
  threads_of h [] = []
  threads_of h (n ∷ names) = if hasher n == h then n ∷ threads_of h names else threads_of h names

  threads_of-snoc :
      (h : ℕ) (names : List Text) (n : Text)
      → (hasher n == h) ≡ false
      → threads_of h (names ++ n ∷ []) ≡ threads_of h names
  threads_of-snoc h [] n other = rw other refl
  threads_of-snoc h (m ∷ names) n other = rw (threads_of-snoc h names n other) refl

  visit-threads_of :
      (h : ℕ) (vm_name : Text) (service : Service)
      → is_monitored h service.monitored ≡ true
      → threads_of h (visit hasher vm_name service).threads ≡ threads_of h service.threads
  unfolding visit
  visit-threads_of h vm_name service met =
      elim (Bool-cases (is_monitored (hasher vm_name) service.monitored)) [
        | inl known ↦ rw known refl
        | inr new ↦ elim (Bool-cases (hasher vm_name == h)) [
          | inl same ↦ absurd (ground (arith, same, new, met))
          | inr other ↦ rw new (threads_of-snoc h service.threads vm_name other)
        ]
      ]

  sweep-threads_of :
      (h : ℕ) (names : List Text) (service : Service)
      → is_monitored h service.monitored ≡ true
      → threads_of h (sweep hasher names service).threads ≡ threads_of h service.threads
  unfolding sweep
  sweep-threads_of h [] service met = refl
  sweep-threads_of h (n ∷ names) service met =
      sweep-threads_of h names (visit hasher n service) (visit-keeps h n service met)
      ∙ visit-threads_of h n service met

  -- A name whose hash was met starts no thread again: in whatever rounds come, also with new machines among
  -- them, the threads of that hash stay those that they were.
  pub monitoring_loop-settled :
      (rounds : List (List Text)) (vm_name : Text) (service : Service)
      → is_monitored (hasher vm_name) service.monitored ≡ true
      → threads_of (hasher vm_name) (monitoring_loop hasher rounds service).threads
        ≡ threads_of (hasher vm_name) service.threads
  unfolding monitoring_loop
  monitoring_loop-settled [] vm_name service met = refl
  monitoring_loop-settled (names ∷ rounds) vm_name service met =
      monitoring_loop-settled rounds vm_name (sweep hasher names service)
        (sweep-keeps (hasher vm_name) names service met)
      ∙ sweep-threads_of (hasher vm_name) names service met
