-- ===== src/Backend/Joining.antt =====
-- Which threads have ended where the service's destructor returns.
use idsproject.Base.{
  ℕ, zero, suc, true, false, some, List, [], ◌∷◌, length, All, ◌≡◌, refl, sym, subst, ◌∙◌, ap, ◌++◌,
}
use idsproject.Backend.Lifetime.{
  ThreadPlace, at_head, in_round, ended, Owner, serving, clearing, joining, destroyed, Lifetime,
  begun, may_grow, preparing, thread_at, Changes, here, there, Turn, enters, starts, starts_late,
  sleeps, leaves, gives_up, prepares, goes_on, checks, stops, broken, clears, counts, joins,
  returns, Runs, stays, later,
}

-- The first so many threads have ended.
abbrev pub EndedFirst : ℕ → List ThreadPlace → Type 0
EndedFirst zero threads = Unit
EndedFirst (suc i) [] = ⊥
EndedFirst (suc i) (t ∷ threads) = (t ≡ ended) × EndedFirst i threads

EndedFirst-Changes :
    {from to : ThreadPlace} {threads changed : List ThreadPlace} (i : ℕ)
    → (from ≡ ended → ⊥)
    → Changes from to threads changed
    → EndedFirst i threads
    → EndedFirst i changed
EndedFirst-Changes zero alive c e = tt
EndedFirst-Changes (suc i) alive here (e, es) = absurd (alive e)
EndedFirst-Changes (suc i) alive (there c) (e, es) = (e, EndedFirst-Changes i alive c es)

EndedFirst-suc :
    (i : ℕ) (threads : List ThreadPlace)
    → EndedFirst i threads
    → thread_at i threads ≡ some ended
    → EndedFirst (suc i) threads
EndedFirst-suc i [] es e = absurd (cc e)
EndedFirst-suc zero (t ∷ threads) es e = (cc e, tt)
EndedFirst-suc (suc i) (t ∷ threads) (e0, es) e = (e0, EndedFirst-suc i threads es e)

EndedFirst-length :
    (threads : List ThreadPlace)
    → EndedFirst (length threads) threads
    → All (λ t. t ≡ ended) threads
EndedFirst-length [] es = tt
EndedFirst-length (t ∷ threads) (e, es) = (e, EndedFirst-length threads es)

pub length-Changes :
    {from to : ThreadPlace} {threads changed : List ThreadPlace}
    → Changes from to threads changed
    → length changed ≡ length threads
length-Changes here = refl
length-Changes (there c) = ap suc (length-Changes c)

-- The loop is in a round.
abbrev pub IsBusy : List ThreadPlace → Type 0
IsBusy threads = (rest : List ThreadPlace) × (threads ≡ in_round ∷ rest)

IsBusy-Changes :
    {from to : ThreadPlace} {threads changed : List ThreadPlace}
    → (to ≡ in_round → ⊥)
    → Changes from to threads changed
    → IsBusy changed
    → IsBusy threads
IsBusy-Changes calm here (rest, e) = absurd (calm (cc e))
IsBusy-Changes calm (there {threads} c) (rest, e) = (threads, cc e)

-- What the destructor knows of the threads, where the loop was between two rounds as the flag went down.
abbrev pub Joined : Owner → List ThreadPlace → Type 0
Joined serving threads = ⊥
Joined clearing threads = Unit
Joined (joining i count) threads = (count ≡ length threads) × EndedFirst i threads
Joined destroyed threads = EndedFirst (length threads) threads
Joined broken threads = ⊥

pub record IsQuiet (s : Lifetime) : Type 0 where
  pub down : s.running ≡ false
  pub idle : IsBusy s.threads → ⊥
  pub joined : Joined s.owner s.threads

Joined-Changes :
    {from to : ThreadPlace} {threads changed : List ThreadPlace} (o : Owner)
    → (from ≡ ended → ⊥)
    → Changes from to threads changed
    → Joined o threads
    → Joined o changed
Joined-Changes serving alive c j = absurd j
Joined-Changes broken alive c j = absurd j
Joined-Changes clearing alive c j = tt
Joined-Changes (joining i count) alive c (e, es) =
    (e ∙ sym (length-Changes c), EndedFirst-Changes i alive c es)
Joined-Changes {changed} destroyed alive c es =
    subst (λ n. EndedFirst n changed) (sym (length-Changes c)) (EndedFirst-Changes _ alive c es)

Changes-IsQuiet :
    {from to : ThreadPlace} {changed : List ThreadPlace} (s : Lifetime)
    → (from ≡ ended → ⊥)
    → (to ≡ in_round → ⊥)
    → Changes from to s.threads changed
    → IsQuiet s
    → IsQuiet (record s { threads = changed })
Changes-IsQuiet s alive calm c q = record {
  down = q.down;
  idle = λ busy. q.idle (IsBusy-Changes calm c busy);
  joined = Joined-Changes s.owner alive c q.joined;
}

pub Turn-IsQuiet : {s t : Lifetime} → Turn s t → IsQuiet s → IsQuiet t
Turn-IsQuiet (enters e at) q = absurd (cc (e, q.down))
Turn-IsQuiet (starts {rest} at room) q = absurd (q.idle (rest, at))
Turn-IsQuiet (starts_late {rest} at full) q = absurd (q.idle (rest, at))
Turn-IsQuiet (sleeps {rest} at) q = absurd (q.idle (rest, at))
Turn-IsQuiet {s} (leaves {rest} e at) q = record {
  down = e;
  idle = λ (others, busy). cc busy;
  joined =
      Joined-Changes s.owner (λ alive. cc alive) (here {threads = rest})
        (subst (Joined s.owner) at q.joined);
}
Turn-IsQuiet {s} (gives_up c) q = Changes-IsQuiet s (λ e. cc e) (λ e. cc e) c q
Turn-IsQuiet {s} (prepares c) q = Changes-IsQuiet s (λ e. cc e) (λ e. cc e) c q
Turn-IsQuiet {s} (goes_on up c) q = Changes-IsQuiet s (λ e. cc e) (λ e. cc e) c q
Turn-IsQuiet {s} (checks c) q = Changes-IsQuiet s (λ e. cc e) (λ e. cc e) c q
Turn-IsQuiet {s} (stops down c) q = Changes-IsQuiet s (λ e. cc e) (λ e. cc e) c q
Turn-IsQuiet {s} (clears e) q = absurd (subst (λ o. Joined o s.threads) e q.joined)
Turn-IsQuiet {s} (counts e) q = record { down = q.down; idle = q.idle; joined = (refl, tt) }
Turn-IsQuiet {s} (joins {i} {count} e le over) q =
    let (n, es) = subst (λ o. Joined o s.threads) e q.joined in
    record { down = q.down; idle = q.idle; joined = (n, EndedFirst-suc i s.threads es over) }
Turn-IsQuiet {s} (returns {count} e) q =
    let (n, es) = subst (λ o. Joined o s.threads) e q.joined in
    record { down = q.down; idle = q.idle; joined = subst (λ k. EndedFirst k s.threads) n es }

pub cleared-IsQuiet :
    (rest : List ThreadPlace)
    → IsQuiet (record { running = false; threads = at_head ∷ rest; owner = clearing })
cleared-IsQuiet rest = record { down = refl; idle = λ (others, busy). cc busy; joined = tt }

-- What the destructor knows of the threads in any case.
abbrev Known : Owner → List ThreadPlace → Type 0
Known serving threads = Unit
Known clearing threads = Unit
Known (joining i count) threads = (count ≡ length threads) × EndedFirst i threads
Known destroyed threads = EndedFirst (length threads) threads
Known broken threads = Unit

Known-Changes :
    {from to : ThreadPlace} {threads changed : List ThreadPlace} (o : Owner)
    → (from ≡ ended → ⊥)
    → Changes from to threads changed
    → Known o threads
    → Known o changed
Known-Changes serving alive c k = tt
Known-Changes clearing alive c k = tt
Known-Changes (joining i count) alive c k = Joined-Changes (joining i count) alive c k
Known-Changes destroyed alive c k = Joined-Changes destroyed alive c k
Known-Changes broken alive c k = tt

Known-append :
    (o : Owner) (threads more : List ThreadPlace) → may_grow o ≡ true → Known o (threads ++ more)
Known-append serving threads more room = tt
Known-append clearing threads more room = tt
Known-append (joining i count) threads more room = absurd (cc room)
Known-append destroyed threads more room = absurd (cc room)
Known-append broken threads more room = absurd (cc room)

-- The loop goes on.
Known-loop :
    {from : ThreadPlace} (to : ThreadPlace) (s : Lifetime) {rest : List ThreadPlace}
    → (from ≡ ended → ⊥)
    → s.threads ≡ from ∷ rest
    → Known s.owner s.threads
    → Known s.owner (to ∷ rest)
Known-loop {from} to s {rest} alive at k =
    Known-Changes {from = from} {to = to} s.owner alive (here {threads = rest})
      (subst (Known s.owner) at k)

Turn-Known : {s t : Lifetime} → Turn s t → Known s.owner s.threads → Known t.owner t.threads
Turn-Known {s} (enters e at) k = Known-loop in_round s (λ x. cc x) at k
Turn-Known {s} (starts at room) k = Known-append s.owner s.threads (preparing ∷ []) room
Turn-Known (starts_late at full) k = tt
Turn-Known {s} (sleeps at) k = Known-loop at_head s (λ x. cc x) at k
Turn-Known {s} (leaves e at) k = Known-loop ended s (λ x. cc x) at k
Turn-Known {s} (gives_up c) k = Known-Changes s.owner (λ x. cc x) c k
Turn-Known {s} (prepares c) k = Known-Changes s.owner (λ x. cc x) c k
Turn-Known {s} (goes_on up c) k = Known-Changes s.owner (λ x. cc x) c k
Turn-Known {s} (checks c) k = Known-Changes s.owner (λ x. cc x) c k
Turn-Known {s} (stops down c) k = Known-Changes s.owner (λ x. cc x) c k
Turn-Known (clears e) k = tt
Turn-Known (counts e) k = (refl, tt)
Turn-Known {s} (joins {i} e le over) k =
    let (n, es) = subst (λ o. Known o s.threads) e k in (n, EndedFirst-suc i s.threads es over)
Turn-Known {s} (returns e) k =
    let (n, es) = subst (λ o. Known o s.threads) e k in subst (λ m. EndedFirst m s.threads) n es

Runs-Known : {s t : Lifetime} → Runs s t → Known s.owner s.threads → Known t.owner t.threads
Runs-Known stays k = k
Runs-Known (later run turn) k = Turn-Known turn (Runs-Known run k)

-- From `start` on, whatever machines come and whatever the loop does as the destructor begins: where the
-- destructor has returned, every thread that the service ever had has ended. A run in which a thread is
-- started while the joins go on does not get there, since nothing is known behind that.
pub begun-destroyed :
    {t : Lifetime} → Runs begun t → t.owner ≡ destroyed → All (λ thread. thread ≡ ended) t.threads
begun-destroyed {t} run done =
    EndedFirst-length t.threads (subst (λ o. Known o t.threads) done (Runs-Known run tt))
