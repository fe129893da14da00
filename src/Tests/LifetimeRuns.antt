-- ===== src/Tests/LifetimeRuns.antt =====
-- The end of the service with the thread of one machine.
use idsproject.Base.{inr, ◌+◌, ◌*◌, ◌≤◌, ◌⊎◌, inl, length, [], ◌∷◌, false, All, ◌≡◌, refl, arith}
use idsproject.Backend.Lifetime.{
  at_head, watching, ended, clearing, destroyed, Lifetime, begun, enters, starts, clears, prepares,
  sleeps, Turn, here, there, stops, leaves, counts, joins, returns, Runs, stays, later,
}
use idsproject.Backend.Progress.{turns, clearing-destroyed}
use idsproject.Backend.Joining.{begun-destroyed}

abbrev cleared : Lifetime
cleared = record { running = false; threads = at_head ∷ watching ∷ []; owner = clearing }

abbrev gone : Lifetime
gone = record { running = false; threads = ended ∷ ended ∷ []; owner = destroyed }

last_run : Runs cleared gone
last_run =
    later
      (later
        (later
          (later (later (later stays (counts refl)) (stops refl (there here))) (leaves refl refl))
          (joins refl (omega arith) refl))
        (joins refl (omega arith) refl))
      (returns refl)

clearing-destroyed_example :
    (turns last_run ≤ 3 * length (watching ∷ []) + 4)
    × ((gone.owner ≡ destroyed) ⊎ ((u : Lifetime) × Turn gone u))
clearing-destroyed_example = clearing-destroyed (inr (inl refl), tt) last_run

-- A machine's thread is started in the first round, and the destructor begins within it.
whole_run : Runs begun gone
whole_run =
    later
      (later
        (later
          (later
            (later
              (later
                (later
                  (later
                    (later (later (later stays (enters refl refl)) (starts refl refl))
                      (clears refl))
                    (prepares (there here)))
                  (sleeps refl))
                (counts refl))
              (stops refl (there here)))
            (leaves refl refl))
          (joins refl (omega arith) refl))
        (joins refl (omega arith) refl))
      (returns refl)

begun-destroyed_example : All (λ thread. thread ≡ ended) (ended ∷ ended ∷ [])
begun-destroyed_example = begun-destroyed whole_run refl
