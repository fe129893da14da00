-- ===== src/Processes/Waiting.antt =====
-- The loop that waits for a command of the guest.
use idsproject.Base.{ℕ, zero, suc, ◌≤◌, ℤ, true, false, ◌≡◌, arith, ok}
use idsproject.Host.{Libvirt, Nlohmann, Crypto}
use idsproject.Processes.{poll, collect, wait_for_execution}

module _ {S Dom J : Type 0} (virt : Libvirt S Dom) (json : Nlohmann J) (crypto : Crypto)
    (sleep_ms : ℕ → S → S) (dom : Dom) (pid : ℤ) where
  -- The guest reports the exit, with this status, at the poll behind `n` others.
  pub data ExitsAfter : ℕ → S → J → S → Type 0 where
    exits :
        {s s' : S} {status : J}
        → poll virt json crypto sleep_ms dom pid s ≡ (ok (status, true), s')
        → ExitsAfter zero s status s'
    runs_on :
        {s s' s'' : S} {n : ℕ} {before status : J}
        → poll virt json crypto sleep_ms dom pid s ≡ (ok (before, false), s')
        → ExitsAfter n (sleep_ms 100 s') status s''
        → ExitsAfter (suc n) s status s''

  -- Where the guest reports the exit behind `n` polls, the wait ends with what is collected from that
  -- status alone, given fuel for one poll more than `n`.
  pub wait_for_execution-ExitsAfter :
      (n fuel : ℕ) {s s' : S} {status : J}
      → ExitsAfter n s status s'
      → n ≤ fuel
      → wait_for_execution virt json crypto sleep_ms (suc fuel) dom pid s
        ≡ collect virt json crypto sleep_ms status s'
  unfolding wait_for_execution
  wait_for_execution-ExitsAfter zero fuel (exits e) le = rw (wait_for_execution, e)
  wait_for_execution-ExitsAfter (suc n) zero (runs_on e later) le = absurd (omega arith)
  wait_for_execution-ExitsAfter (suc n) (suc fuel) (runs_on e later) le =
      let rest = wait_for_execution-ExitsAfter n fuel later (omega arith) in
      rw (wait_for_execution, e) rest
