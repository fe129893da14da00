-- ===== src/MonitorThread/Life.antt =====
-- The threads of `MonitorThread::run` and its flag: a step is one thread's reading of the flag, the
-- end of one round, or one `join`. A wait that never comes back, as for a line of `tcpdump` where there
-- is no traffic or for its end in `pclose`, is a step that is never made; the return of `run` before its
-- threads are started, and an exception that leaves a thread and ends the program, are no steps here.
use idsproject.Base.{ℕ, ◌≤◌, Bool, true, false, ◌≡◌, ap, arith}

pub data Worker : Type 0 where
  file process network : Worker

-- Where a thread stands: before its flag is read, in a round, in the `pclose` behind the loop of the
-- network thread, or behind its end.
pub data Place : Type 0 where
  at_head in_round closing ended : Place

-- Where a thread goes on behind its loop.
abbrev pub behind_loop : Worker → Place
behind_loop file = ended
behind_loop process = ended
behind_loop network = closing

-- The thread of `run` itself: in the loop that sleeps, before each `join`, or behind the last.
pub data Main : Type 0 where
  sleeping join_file join_process join_network returned : Main

pub record Life : Type 0 where
  pub should_continue : Bool
  pub file_place : Place
  pub process_place : Place
  pub network_place : Place
  pub main : Main

abbrev pub place : Worker → Life → Place
place file l = l.file_place
place process l = l.process_place
place network l = l.network_place

abbrev pub put : Worker → Place → Life → Life
put file p l = record l { file_place = p }
put process p l = record l { process_place = p }
put network p l = record l { network_place = p }

-- Behind the start of the threads.
abbrev pub started : Life
started = record {
  should_continue = true;
  file_place = at_head;
  process_place = at_head;
  network_place = at_head;
  main = sleeping;
}

-- What the threads do by themselves. The loop of the network thread ends also where the pipe does.
pub data Move (l : Life) : Life → Type 0 where
  enters : (w : Worker) → l.should_continue ≡ true → place w l ≡ at_head → Move l (put w in_round l)
  finishes : (w : Worker) → place w l ≡ in_round → Move l (put w at_head l)
  leaves :
      (w : Worker)
      → l.should_continue ≡ false
      → place w l ≡ at_head
      → Move l (put w (behind_loop w) l)
  breaks_off : l.network_place ≡ in_round → Move l (put network closing l)
  closes : l.network_place ≡ closing → Move l (put network ended l)
  wakes : l.should_continue ≡ false → l.main ≡ sleeping → Move l (record l { main = join_file })
  joins_file : l.main ≡ join_file → l.file_place ≡ ended → Move l (record l { main = join_process })
  joins_process :
      l.main ≡ join_process → l.process_place ≡ ended → Move l (record l { main = join_network })
  joins_network :
      l.main ≡ join_network → l.network_place ≡ ended → Move l (record l { main = returned })

-- `stop` comes from another thread, at any time.
pub data Step (l : Life) : Life → Type 0 where
  moves : {k : Life} → Move l k → Step l k
  stop : Step l (record l { should_continue = false })

pub data Reach : Life → Type 0 where
  start : Reach started
  later : {l k : Life} → Reach l → Step l k → Reach k

-- How far the joins have come.
abbrev rank : Main → ℕ
rank sleeping = 0
rank join_file = 1
rank join_process = 2
rank join_network = 3
rank returned = 4

-- The flag is down once a thread but the network's has ended or the joins have begun, and each join
-- that is done has met a thread at its end.
pub record IsSafe (l : Life) : Type 0 where
  pub file_ended : l.file_place ≡ ended → l.should_continue ≡ false
  pub process_ended : l.process_place ≡ ended → l.should_continue ≡ false
  pub joining : 1 ≤ rank l.main → l.should_continue ≡ false
  pub file_joined : 2 ≤ rank l.main → l.file_place ≡ ended
  pub process_joined : 3 ≤ rank l.main → l.process_place ≡ ended
  pub network_joined : 4 ≤ rank l.main → l.network_place ≡ ended

started-IsSafe : IsSafe started
started-IsSafe = ground arith

Move-IsSafe : {l k : Life} → Move l k → IsSafe l → IsSafe k
Move-IsSafe (enters file f p) s = ground arith
Move-IsSafe (enters process f p) s = ground arith
Move-IsSafe (enters network f p) s = ground arith
Move-IsSafe (finishes file p) s = ground arith
Move-IsSafe (finishes process p) s = ground arith
Move-IsSafe (finishes network p) s = ground arith
Move-IsSafe (leaves file f p) s = ground arith
Move-IsSafe (leaves process f p) s = ground arith
Move-IsSafe (leaves network f p) s = ground arith
Move-IsSafe (breaks_off p) s = ground arith
Move-IsSafe (closes p) s = ground arith
Move-IsSafe (wakes f m) s = ground arith
Move-IsSafe (joins_file m p) s = ground arith
Move-IsSafe (joins_process m p) s = ground arith
Move-IsSafe (joins_network m p) s = ground arith

Step-IsSafe : {l k : Life} → Step l k → IsSafe l → IsSafe k
Step-IsSafe (moves m) s = Move-IsSafe m s
Step-IsSafe stop s = ground arith

Reach-IsSafe : {l : Life} → Reach l → IsSafe l
Reach-IsSafe start = started-IsSafe
Reach-IsSafe (later r st) = Step-IsSafe st (Reach-IsSafe r)

-- In every interleaving, `run` has returned only where `stop` was called and all three threads have
-- ended, so no thread uses the object behind the return.
pub returned-ended :
    {l : Life}
    → Reach l
    → l.main ≡ returned
    → (l.should_continue ≡ false)
      × (l.file_place ≡ ended)
      × (l.process_place ≡ ended)
      × (l.network_place ≡ ended)
returned-ended {l} r done =
    let s = Reach-IsSafe r in
    let top : rank l.main ≡ 4 = ap rank done in
    (
      s.joining (omega (arith, top)),
      s.file_joined (omega (arith, top)),
      s.process_joined (omega (arith, top)),
      s.network_joined (omega (arith, top)),
    )
