-- ===== src/VmUtils/Waiting.antt =====
-- The loop of `configureNewVM` that waits for the machine to power off.
use idsproject.Base.{
  ℕ, zero, suc, ◌≤◌, ℤ, pos, eqb_ℤ, false, none, some, ◌≡◌, refl, arith, ok, spent, Option-cases,
  Bool-cases, inl, inr, ◌⊎◌,
}
use idsproject.Host.{Domains, Tinyxml}
use idsproject.VmUtils.{wait_off}

module _ {S Dom : Type 0} (domains : Domains S Dom) (dom : Dom) where
  -- A poll ends the loop: the call fails, or the state is VIR_DOMAIN_SHUTOFF.
  abbrev pub Ends : S → Type 0
  Ends s = ((domains.get_state dom s).0 ≡ none) ⊎ ((domains.get_state dom s).0 ≡ some (pos 5))

  -- The environment one round later.
  abbrev pub next_round : S → S
  next_round s = domains.sleep_ms 1000 (domains.get_state dom s).1

  -- Some poll within `n` rounds ends the loop.
  abbrev pub EndsWithin : ℕ → S → Type 0
  EndsWithin zero s = Ends s
  EndsWithin (suc n) s = Ends s ⊎ EndsWithin n (next_round s)

module _ {Doc El S Dom : Type 0} (xml : Tinyxml Doc El) (domains : Domains S Dom) (dom : Dom) where
  wait_off-Ends :
      (fuel : ℕ) (s : S) → Ends domains dom s → (wait_off xml domains (suc fuel) dom s).0 ≡ ok tt
  unfolding wait_off
  wait_off-Ends fuel s (inl e) = rw (wait_off, e)
  wait_off-Ends fuel s (inr e) = rw (wait_off, e)

  -- Where some poll within `n` rounds finds the machine off or fails, fuel for one round more is
  -- enough for the wait to come back.
  pub wait_off-EndsWithin :
      (n fuel : ℕ) (s : S)
      → EndsWithin domains dom n s
      → n ≤ fuel
      → (wait_off xml domains (suc fuel) dom s).0 ≡ ok tt
  unfolding wait_off
  wait_off-EndsWithin zero fuel s e le = wait_off-Ends fuel s e
  wait_off-EndsWithin (suc n) fuel s (inl e) le = wait_off-Ends fuel s e
  wait_off-EndsWithin (suc n) zero s (inr later) le = absurd (omega arith)
  wait_off-EndsWithin (suc n) (suc fuel) s (inr later) le =
      let rest = wait_off-EndsWithin n fuel (next_round domains dom s) later (omega arith) in
      elim (Option-cases (domains.get_state dom s).0) [
        | inl e ↦ wait_off-Ends (suc fuel) s (inl e)
        | inr (state, e) ↦ elim (Bool-cases (eqb_ℤ state (pos 5))) [
          | inl off ↦ rw (wait_off, e, off)
          | inr on ↦ rw (wait_off, e, on) rest
        ]
      ]

  -- There is no time limit: while every poll finds the machine in some state other than off, as one
  -- that ignores the shutdown request, the wait uses up any fuel.
  pub wait_off-forever :
      (On : S → Type 0) (fuel : ℕ) (s : S)
      → ((t : S)
          → On t
          → (state : ℤ) × ((domains.get_state dom t).0 ≡ some state)
            × (eqb_ℤ state (pos 5) ≡ false))
      → ((t : S) → On t → On (next_round domains dom t))
      → On s
      → (wait_off xml domains fuel dom s).0 ≡ spent
  unfolding wait_off
  wait_off-forever On zero s polls stays on = refl
  wait_off-forever On (suc fuel) s polls stays on =
      let (state, e, alive) = polls s on in
      rw (wait_off, e, alive)
        (wait_off-forever On fuel (next_round domains dom s) polls stays (stays s on))
