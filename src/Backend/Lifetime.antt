-- ===== src/Backend/Lifetime.antt =====
-- The threads of the service from `start` to its destructor: a step is one thread's reading of the flag,
-- the end of one of its rounds, the start of one machine's thread, or a step of the destructor. A wait that
-- never comes back, as for an agent that does not answer, is a step that is never made.
use idsproject.Base.{
  ℕ, zero, suc, ◌≤◌, Bool, true, false, Option, none, some, List, [], ◌∷◌, ◌++◌, length, ◌≡◌,
}

-- Where a thread stands: the loop before it reads its flag, and in a round; a machine's thread before its
-- monitor is initialised, before it reads the flag, and in a round; any behind its end.
pub data ThreadPlace : Type 0 where
  at_head in_round preparing watching checking ended : ThreadPlace

-- Where the owner of the service stands: before the destructor; behind the change of the flag; before the
-- join of the thread with this number, of as many as there were when the joins began; or behind the destructor.
-- A thread that is appended while the destructor goes through the vector may move it, and is not joined:
-- nothing is known of the program behind that.
pub data Owner : Type 0 where
  serving clearing : Owner
  joining : ℕ → ℕ → Owner
  destroyed broken : Owner

pub record Lifetime : Type 0 where
  pub running : Bool
  pub threads : List ThreadPlace
  pub owner : Owner

-- Behind `start`.
abbrev pub begun : Lifetime
begun = record { running = true; threads = at_head ∷ []; owner = serving }

abbrev pub thread_at : ℕ → List ThreadPlace → Option ThreadPlace
thread_at i [] = none
thread_at zero (t ∷ threads) = some t
thread_at (suc i) (t ∷ threads) = thread_at i threads

-- One thread goes from one place to another.
pub data Changes (from to : ThreadPlace) : List ThreadPlace → List ThreadPlace → Type 0 where
  here : {threads : List ThreadPlace} → Changes from to (from ∷ threads) (to ∷ threads)
  there :
      {t : ThreadPlace} {threads later : List ThreadPlace}
      → Changes from to threads later
      → Changes from to (t ∷ threads) (t ∷ later)

-- `may_grow` tells whether the vector may be appended to.
abbrev pub may_grow : Owner → Bool
may_grow serving = true
may_grow clearing = true
may_grow (joining i count) = false
may_grow destroyed = false
may_grow broken = false

pub data Turn (s : Lifetime) : Lifetime → Type 0 where
  enters :
      {rest : List ThreadPlace}
      → s.running ≡ true
      → s.threads ≡ at_head ∷ rest
      → Turn s (record s { threads = in_round ∷ rest })
  starts :
      {rest : List ThreadPlace}
      → s.threads ≡ in_round ∷ rest
      → may_grow s.owner ≡ true
      → Turn s (record s { threads = s.threads ++ preparing ∷ [] })
  starts_late :
      {rest : List ThreadPlace}
      → s.threads ≡ in_round ∷ rest
      → may_grow s.owner ≡ false
      → Turn s (record s { owner = broken })
  sleeps :
      {rest : List ThreadPlace}
      → s.threads ≡ in_round ∷ rest
      → Turn s (record s { threads = at_head ∷ rest })
  leaves :
      {rest : List ThreadPlace}
      → s.running ≡ false
      → s.threads ≡ at_head ∷ rest
      → Turn s (record s { threads = ended ∷ rest })
  gives_up :
      {later : List ThreadPlace}
      → Changes preparing ended s.threads later
      → Turn s (record s { threads = later })
  prepares :
      {later : List ThreadPlace}
      → Changes preparing watching s.threads later
      → Turn s (record s { threads = later })
  goes_on :
      {later : List ThreadPlace}
      → s.running ≡ true
      → Changes watching checking s.threads later
      → Turn s (record s { threads = later })
  checks :
      {later : List ThreadPlace}
      → Changes checking watching s.threads later
      → Turn s (record s { threads = later })
  stops :
      {later : List ThreadPlace}
      → s.running ≡ false
      → Changes watching ended s.threads later
      → Turn s (record s { threads = later })
  clears : s.owner ≡ serving → Turn s (record s { running = false; owner = clearing })
  counts : s.owner ≡ clearing → Turn s (record s { owner = joining 0 (length s.threads) })
  joins :
      {i count : ℕ}
      → s.owner ≡ joining i count
      → suc i ≤ count
      → thread_at i s.threads ≡ some ended
      → Turn s (record s { owner = joining (suc i) count })
  returns : {count : ℕ} → s.owner ≡ joining count count → Turn s (record s { owner = destroyed })

pub data Runs (s : Lifetime) : Lifetime → Type 0 where
  stays : Runs s s
  later : {t u : Lifetime} → Runs s t → Turn t u → Runs s u
