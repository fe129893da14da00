-- ===== src/Backend/Machine.antt =====
-- The thread of a machine in the service, and that in the window.
use mathlib.Core.Path.{fun_ext}
use idsproject.Base.{
  Text, ℕ, zero, suc, ℤ, Bool, true, false, not, lookup, Option-cases, List, [], ◌∷◌, ◌≡◌, refl,
  ◌∙◌, ap, inl, inr, if◌then◌else◌, pure, fail, effect, ◌>>=◌, ◌>>◌,
}
use idsproject.Host.{Libvirt, JsonC, Evp, Disk, Crypto}
use idsproject.Config.{Config}
use idsproject.FileMonitor.{
  FileMonitor, is_hash_stored, some_missing, requires_initialization, has_file_changed,
  initialize_vm_hashes,
}
use idsproject.Monitor.{initialize_monitor}
use idsproject.MonitorThread.{alarm, file_round, file_thread}
use idsproject.Backend.{
  needs_init, emit_alert, changed_or_not, machine_round, machine_rounds, monitor_vm,
}

some_missing_lem :
    (paths : List Text) (m : FileMonitor) → needs_init paths m ≡ some_missing paths m.file_hashes
unfolding needs_init is_hash_stored some_missing
some_missing_lem [] m = refl
some_missing_lem (path ∷ paths) m = elim (Option-cases (lookup path m.file_hashes)) [
  | inl e ↦ rw (needs_init, is_hash_stored, some_missing, e)
  | inr (h, e) ↦ rw (needs_init, is_hash_stored, some_missing, e) (some_missing_lem paths m)
]

module _ {S Dom J Ctx : Type 0} (virt : Libvirt S Dom) (json : JsonC J) (evp : Evp S Ctx)
    (disk : Disk S) where
  changed_or_not-alarm :
      (x : Bool × FileMonitor) → changed_or_not virt json evp disk x ≡ alarm virt json evp disk x
  unfolding changed_or_not alarm emit_alert
  changed_or_not-alarm (true, m) = refl
  changed_or_not-alarm (false, m) = refl

  machine_round-file_round :
      (config : Config) (m : FileMonitor)
      → machine_round virt json evp disk config m ≡ file_round virt json evp disk config m
  unfolding machine_round file_round
  machine_round-file_round config m =
      ap
        (λ k.
          if config.monitor_files then has_file_changed virt json evp m >>= k else pure (false, m))
        (fun_ext changed_or_not-alarm)

  module _ (sleep_s : ℤ → S → S) where
    machine_rounds-file_thread :
        (rounds : ℕ) (config : Config) (m : FileMonitor)
        → machine_rounds virt json evp disk sleep_s rounds config m
          ≡ file_thread virt json evp disk sleep_s rounds config m
    unfolding machine_rounds file_thread
    machine_rounds-file_thread zero config m = refl
    machine_rounds-file_thread (suc n) config m =
        ap
          (λ k.
            effect (sleep_s config.monitoring_interval)
            >> (k >>= λ x. machine_rounds virt json evp disk sleep_s n config x.1 >>= λ y.
                pure (x.0 ∷ y.0, y.1)))
          (machine_round-file_round config m)
        ∙ ap
            (λ f.
              effect (sleep_s config.monitoring_interval)
              >> (file_round virt json evp disk config m >>= λ x.
                  f x.1 >>= λ y. pure (x.0 ∷ y.0, y.1)))
            (fun_ext λ m'. machine_rounds-file_thread n config m')

    -- Where the configuration and the object watch the same files, the service's thread of a machine is
    -- the window's: it asks the machine's monitor, initialises the hashes where `requiresInitialization`
    -- says so, and then does the rounds of the file thread. The service leaves out the changes to the
    -- machine's devices, and initialises whether or not files are monitored.
    pub monitor_vm-file_thread :
        (crypto : Crypto) (sleep_ms : ℕ → S → S) (rounds : ℕ) (config : Config) (m : FileMonitor)
        → config.files2watch ≡ m.files2watch
        → monitor_vm virt json evp disk sleep_s crypto sleep_ms rounds config m ≡ (
            initialize_monitor virt json crypto sleep_ms m.vm_name >>= λ ready.
            if not ready
            then fail
            else ((if requires_initialization m
                  then initialize_vm_hashes virt json evp disk m
                  else pure m)
                >>= file_thread virt json evp disk sleep_s rounds config))
    unfolding monitor_vm requires_initialization
    monitor_vm-file_thread crypto sleep_ms rounds config m same =
        ap
          (λ b. initialize_monitor virt json crypto sleep_ms m.vm_name >>= λ ready.
            if not ready
            then fail
            else ((if b then initialize_vm_hashes virt json evp disk m else pure m)
                >>= machine_rounds virt json evp disk sleep_s rounds config))
          (some_missing_lem config.files2watch m ∙ ap (λ fs. some_missing fs m.file_hashes) same)
        ∙ ap
            (λ f. initialize_monitor virt json crypto sleep_ms m.vm_name >>= λ ready.
              if not ready
              then fail
              else ((if some_missing m.files2watch m.file_hashes
                    then initialize_vm_hashes virt json evp disk m
                    else pure m)
                  >>= f))
            (fun_ext λ m'. machine_rounds-file_thread rounds config m')
