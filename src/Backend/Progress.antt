-- ===== src/Backend/Progress.antt =====
-- That the service's destructor comes to its end.
use idsproject.Base.{
  ℕ, zero, suc, ◌+◌, ◌*◌, ◌-◌, ltb, Bool-cases, ◌∙◌, ◌≤◌, ◌<◌, false, some, List, [], ◌∷◌, length,
  All, ◌≡◌, ◌⊎◌, inl, inr, refl, sym, subst, ap, arith,
}
use idsproject.Backend.Lifetime.{
  ThreadPlace, at_head, in_round, watching, ended, Owner, serving, clearing, joining, destroyed,
  Lifetime, thread_at, Changes, here, there, Turn, enters, starts, sleeps, leaves, gives_up,
  starts_late, preparing, checking, broken, prepares, goes_on, checks, stops, clears, counts, joins,
  returns, Runs, stays, later,
}
use idsproject.Backend.Joining.{
  EndedFirst, Joined, length-Changes, IsQuiet, Turn-IsQuiet, cleared-IsQuiet,
}

-- A machine's thread.
abbrev pub IsMachine : ThreadPlace → Type 0
IsMachine t = (t ≡ preparing) ⊎ ((t ≡ watching) ⊎ ((t ≡ checking) ⊎ (t ≡ ended)))

-- The loop between two rounds or behind its end, and behind it the threads of machines.
abbrev IsWound : List ThreadPlace → Type 0
IsWound [] = ⊥
IsWound (t ∷ threads) = ((t ≡ at_head) ⊎ (t ≡ ended)) × All IsMachine threads

-- How a machine's thread goes on once the flag is down.
data WindsDown : ThreadPlace → ThreadPlace → Type 0 where
  unprepared : WindsDown preparing ended
  prepared : WindsDown preparing watching
  checked : WindsDown checking watching
  stopped : WindsDown watching ended

IsMachine-WindsDown : {from to : ThreadPlace} → WindsDown from to → IsMachine to
IsMachine-WindsDown unprepared = inr (inr (inr refl))
IsMachine-WindsDown prepared = inr (inl refl)
IsMachine-WindsDown checked = inr (inl refl)
IsMachine-WindsDown stopped = inr (inr (inr refl))

IsMachine-Changes :
    {from to : ThreadPlace} {threads changed : List ThreadPlace}
    → WindsDown from to
    → Changes from to threads changed
    → All IsMachine threads
    → All IsMachine changed
IsMachine-Changes d here (m, ms) = (IsMachine-WindsDown d, ms)
IsMachine-Changes d (there c) (m, ms) = (m, IsMachine-Changes d c ms)

not_loop : {from to : ThreadPlace} → WindsDown from to → ((from ≡ at_head) ⊎ (from ≡ ended)) → ⊥
not_loop unprepared (inl e) = cc e
not_loop unprepared (inr e) = cc e
not_loop prepared (inl e) = cc e
not_loop prepared (inr e) = cc e
not_loop checked (inl e) = cc e
not_loop checked (inr e) = cc e
not_loop stopped (inl e) = cc e
not_loop stopped (inr e) = cc e

IsWound-Changes :
    {from to : ThreadPlace} {threads changed : List ThreadPlace}
    → WindsDown from to
    → Changes from to threads changed
    → IsWound threads
    → IsWound changed
IsWound-Changes d here (h, ms) = absurd (not_loop d h)
IsWound-Changes d (there c) (h, ms) = (h, IsMachine-Changes d c ms)

Turn-IsWound : {s t : Lifetime} → Turn s t → IsQuiet s → IsWound s.threads → IsWound t.threads
Turn-IsWound (enters e at) q w = absurd (cc (e, q.down))
Turn-IsWound (starts {rest} at room) q w = absurd (q.idle (rest, at))
Turn-IsWound (starts_late {rest} at full) q w = absurd (q.idle (rest, at))
Turn-IsWound (sleeps {rest} at) q w = absurd (q.idle (rest, at))
Turn-IsWound (leaves e at) q w = (inr refl, (subst IsWound at w).1)
Turn-IsWound (gives_up c) q w = IsWound-Changes unprepared c w
Turn-IsWound (prepares c) q w = IsWound-Changes prepared c w
Turn-IsWound (goes_on up c) q w = absurd (cc (up, q.down))
Turn-IsWound (checks c) q w = IsWound-Changes checked c w
Turn-IsWound (stops down c) q w = IsWound-Changes stopped c w
Turn-IsWound (clears e) q w = w
Turn-IsWound (counts e) q w = w
Turn-IsWound (joins e le over) q w = w
Turn-IsWound (returns e) q w = w

-- How many turns the threads and the owner are away from their end.
abbrev left_of : ThreadPlace → ℕ
left_of at_head = 1
left_of in_round = 2
left_of preparing = 2
left_of watching = 1
left_of checking = 2
left_of ended = 0

abbrev left_of_threads : List ThreadPlace → ℕ
left_of_threads [] = 0
left_of_threads (t ∷ threads) = left_of t + left_of_threads threads

abbrev left_of_owner : ℕ → Owner → ℕ
left_of_owner n serving = n + 3
left_of_owner n clearing = n + 2
left_of_owner n (joining i count) = suc (count - i)
left_of_owner n destroyed = 0
left_of_owner n broken = 0

abbrev turns_left : Lifetime → ℕ
turns_left s = left_of_threads s.threads + left_of_owner (length s.threads) s.owner

left_of-WindsDown : {from to : ThreadPlace} → WindsDown from to → left_of to < left_of from
left_of-WindsDown unprepared = omega arith
left_of-WindsDown prepared = omega arith
left_of-WindsDown checked = omega arith
left_of-WindsDown stopped = omega arith

left_of-Changes :
    {from to : ThreadPlace} {threads changed : List ThreadPlace}
    → WindsDown from to
    → Changes from to threads changed
    → left_of_threads changed < left_of_threads threads
left_of-Changes d here = let less = left_of-WindsDown d in omega (arith, less)
left_of-Changes d (there c) = let less = left_of-Changes d c in omega (arith, less)

turns_left-Changes :
    {from to : ThreadPlace} {changed : List ThreadPlace} (s : Lifetime)
    → WindsDown from to
    → Changes from to s.threads changed
    → turns_left (record s { threads = changed }) < turns_left s
turns_left-Changes s d c =
    let less = left_of-Changes d c in rw (length-Changes c) (omega (arith, less))

Turn-turns_left : {s t : Lifetime} → Turn s t → IsQuiet s → turns_left t < turns_left s
Turn-turns_left (enters e at) q = absurd (cc (e, q.down))
Turn-turns_left (starts {rest} at room) q = absurd (q.idle (rest, at))
Turn-turns_left (starts_late {rest} at full) q = absurd (q.idle (rest, at))
Turn-turns_left (sleeps {rest} at) q = absurd (q.idle (rest, at))
Turn-turns_left (leaves e at) q = rw at (omega arith)
Turn-turns_left {s} (gives_up c) q = turns_left-Changes s unprepared c
Turn-turns_left {s} (prepares c) q = turns_left-Changes s prepared c
Turn-turns_left (goes_on up c) q = absurd (cc (up, q.down))
Turn-turns_left {s} (checks c) q = turns_left-Changes s checked c
Turn-turns_left {s} (stops down c) q = turns_left-Changes s stopped c
Turn-turns_left (clears e) q = rw e (omega arith)
Turn-turns_left (counts e) q = rw e (omega arith)
Turn-turns_left (joins e le over) q = rw e (omega (arith, le))
Turn-turns_left (returns {count} e) q = rw e (omega arith)

EndedFirst-le : (i : ℕ) (threads : List ThreadPlace) → EndedFirst i threads → i ≤ length threads
EndedFirst-le zero threads es = omega arith
EndedFirst-le (suc i) [] es = absurd es
EndedFirst-le (suc i) (t ∷ threads) (e, es) =
    let le = EndedFirst-le i threads es in omega (arith, le)

-- Some thread of a machine can go on.
abbrev CanWindDown : List ThreadPlace → Type 0
CanWindDown threads =
    (from : ThreadPlace) × (to : ThreadPlace) × (changed : List ThreadPlace) × WindsDown from to
    × Changes from to threads changed

can_change :
    {from to : ThreadPlace} {t : ThreadPlace} (threads : List ThreadPlace)
    → WindsDown from to
    → t ≡ from
    → CanWindDown (t ∷ threads)
can_change {from} {to} threads d e = (
  from,
  to,
  to ∷ threads,
  d,
  subst (λ x. Changes from to (x ∷ threads) (to ∷ threads)) (sym e) here,
)

-- The thread of a machine has ended, or can go on.
machine_moves :
    (i : ℕ) (threads : List ThreadPlace)
    → All IsMachine threads
    → suc i ≤ length threads
    → (thread_at i threads ≡ some ended) ⊎ CanWindDown threads
machine_moves i [] ms le = absurd (omega (arith, le))
machine_moves zero (t ∷ threads) (inl e, ms) le = inr (can_change threads unprepared e)
machine_moves zero (t ∷ threads) (inr (inl e), ms) le = inr (can_change threads stopped e)
machine_moves zero (t ∷ threads) (inr (inr (inl e)), ms) le = inr (can_change threads checked e)
machine_moves zero (t ∷ threads) (inr (inr (inr e)), ms) le = inl (ap some e)
machine_moves (suc i) (t ∷ threads) (m, ms) le =
    elim (machine_moves i threads ms (omega (arith, le))) [
      | inl e ↦ inl e
      | inr (from, to, changed, d, c) ↦ inr (from, to, t ∷ changed, d, there c)
    ]

turn_of :
    {from to : ThreadPlace} (s : Lifetime) (changed : List ThreadPlace)
    → s.running ≡ false
    → WindsDown from to
    → Changes from to s.threads changed
    → Turn s (record s { threads = changed })
turn_of s changed down unprepared c = gives_up c
turn_of s changed down prepared c = prepares c
turn_of s changed down checked c = checks c
turn_of s changed down stopped c = stops down c

-- The thread that is to be joined has ended, or some thread can make a turn.
thread_moves :
    (i : ℕ) (s : Lifetime)
    → s.running ≡ false
    → IsWound s.threads
    → suc i ≤ length s.threads
    → (thread_at i s.threads ≡ some ended) ⊎ ((t : Lifetime) × Turn s t)
thread_moves i s down wound le = by_threads i s.threads refl wound le
  where
    by_threads :
        (i : ℕ) (threads : List ThreadPlace)
        → s.threads ≡ threads
        → IsWound threads
        → suc i ≤ length threads
        → (thread_at i threads ≡ some ended) ⊎ ((t : Lifetime) × Turn s t)
    by_threads i [] e w le = absurd w
    by_threads zero (t ∷ threads) e (inr over, ms) le = inl (ap some over)
    by_threads zero (t ∷ threads) e (inl head, ms) le =
        inr (record s { threads = ended ∷ threads }, leaves down (e ∙ ap (λ x. x ∷ threads) head))
    by_threads (suc i) (t ∷ threads) e (head, ms) le =
        elim (machine_moves i threads ms (omega (arith, le))) [
          | inl over ↦ inl over
          | inr (from, to, changed, d, c) ↦ inr (
            record s { threads = t ∷ changed },
            turn_of s (t ∷ changed) down d
                (subst (λ ts. Changes from to ts (t ∷ changed)) (sym e) (there c)),
          )
        ]

never_stuck :
    (s : Lifetime)
    → IsQuiet s
    → IsWound s.threads
    → (s.owner ≡ destroyed) ⊎ ((t : Lifetime) × Turn s t)
never_stuck s q w = by_owner s.owner refl
  where
    by_owner : (o : Owner) → s.owner ≡ o → (s.owner ≡ destroyed) ⊎ ((t : Lifetime) × Turn s t)
    by_owner serving e = absurd (subst (λ o. Joined o s.threads) e q.joined)
    by_owner broken e = absurd (subst (λ o. Joined o s.threads) e q.joined)
    by_owner clearing e = inr (record s { owner = joining 0 (length s.threads) }, counts e)
    by_owner destroyed e = inl e
    by_owner (joining i count) e =
        let (n, es) = subst (λ o. Joined o s.threads) e q.joined in
        let le = EndedFirst-le i s.threads es in
        elim (Bool-cases (ltb i count)) [
          | inl more ↦ elim (thread_moves i s q.down w (ground arith)) [
            | inl over ↦
                inr (record s { owner = joining (suc i) count }, joins e (ground arith) over)
            | inr turn ↦ inr turn
          ]
          | inr all ↦
              let last : i ≡ count = ground arith in
              inr (record s { owner = destroyed }, returns (e ∙ ap (λ k. joining k count) last))
        ]

abbrev pub turns : {s t : Lifetime} → Runs s t → ℕ
turns stays = 0
turns (later run turn) = suc (turns run)

Runs-turns_left :
    {s t : Lifetime} (run : Runs s t)
    → IsQuiet s
    → IsWound s.threads
    → IsQuiet t × IsWound t.threads × (turns run + turns_left t ≤ turns_left s)
Runs-turns_left stays q w = (q, w, omega arith)
Runs-turns_left (later run turn) q w =
    let (q1, w1, bound) = Runs-turns_left run q w in
    let less = Turn-turns_left turn q1 in
    (Turn-IsQuiet turn q1, Turn-IsWound turn q1 w1, omega (arith, bound, less))

left_of-le :
    (threads : List ThreadPlace)
    → All IsMachine threads
    → left_of_threads threads ≤ 2 * length threads
left_of-le [] ms = omega arith
left_of-le (t ∷ threads) (m, ms) =
    let le = left_of-le threads ms in
    elim m [
      | inl e ↦ rw e (omega (arith, le))
      | inr (inl e) ↦ rw e (omega (arith, le))
      | inr (inr (inl e)) ↦ rw e (omega (arith, le))
      | inr (inr (inr e)) ↦ rw e (omega (arith, le))
    ]

-- Where the loop is between two rounds as the destructor begins, and the other threads are those of
-- machines, no interleaving has more than three turns for each of these and four, and none is stuck before
-- the destructor has returned, where a thread's round or the start of its monitor that has begun comes to an
-- end.
pub clearing-destroyed :
    {rest : List ThreadPlace} {t : Lifetime}
    → All IsMachine rest
    → (run : Runs (record { running = false; threads = at_head ∷ rest; owner = clearing }) t)
    → (turns run ≤ 3 * length rest + 4) × ((t.owner ≡ destroyed) ⊎ ((u : Lifetime) × Turn t u))
clearing-destroyed {rest} {t} ms run =
    let (q, w, bound) = Runs-turns_left run (cleared-IsQuiet rest) (inl refl, ms) in
    let le = left_of-le rest ms in (omega (arith, bound, le), never_stuck t q w)
