-- ===== src/Scheduler/Schedule.antt =====
-- `kthreads_schedule` leaves the kernel settled: it does not halt, and the active thread has the
-- highest priority.
use diplomski_rad.Base.{
  ℕ, ◌≡◌, refl, ◌∙◌, inl, inr, true, false, Option, none, some, ◌==◌, ◌>>=◌, Bool-cases, arith,
}
use diplomski_rad.Threads.{rdy_masks, null, Kernel}
use diplomski_rad.Threads.Links.{IsLinked}
use diplomski_rad.Scheduler.{
  Env, kthread_ready_list_highest, retire, select, kthreads_schedule, highest_below, is_running,
  is_above,
}
use diplomski_rad.Scheduler.Highest.{IsTop, highest_below_lem}
use diplomski_rad.Scheduler.Laws.{IsRunning, Undisturbed, IsRunnable, IsSettled, IsLawful}
use diplomski_rad.Scheduler.Retire.{same_state-active, other_ready, retire-IsVacant}
use diplomski_rad.Scheduler.Select.{top_queue, select-IsSettled}

test-IsRunning : (k : Kernel) → is_running k ≡ true → IsRunning k
test-IsRunning k h =
    (ground arith, same_state-active (k.threads k.active_thread).state (ground arith))

halted_or_out : (k : Kernel) → is_running k ≡ false → ¬ IsRunning k
halted_or_out k h r =
    let n : (k.active_thread == null) ≡ false = ground (arith, r.0) in cc (rw (n, r.1) at h)

-- Where the search finds nothing above the running thread, the kernel is settled as it is.
stay_top :
    (k : Kernel) (r : Option ℕ)
    → IsLinked null k
    → IsRunning k
    → IsTop k.rdy_mask rdy_masks r
    → is_above r (k.threads k.active_thread).prio ≡ false
    → IsSettled k
stay_top k none h run top b = record {
  linked = h;
  running = run;
  top = λ p hp l. ground (arith, h.marks p hp, top p hp);
}
stay_top k (some t) h run (ht, set_bit, above) b = record {
  linked = h;
  running = run;
  top = λ p hp l. ground (arith, h.marks p hp, above p (ground arith) hp);
}

module _ (e : Env) (law : IsLawful e) where
  switch-IsSettled :
      (k : Kernel)
      → IsLinked null k
      → IsRunnable k
      → (k' : Kernel) × ((retire e k >>= select e) ≡ some k') × IsSettled k' × Undisturbed e k k'
  switch-IsSettled k h r =
      let (k1, eq1, v, u1) = retire-IsVacant e k law h r in
      let (k2, eq2, s, u2) = select-IsSettled e law k1 v in
      (k2, rw (eq1, ◌>>=◌) eq2, s, λ a o. u2 a o ∙ u1 a o)

  -- From a kernel with a thread to return to, `kthreads_schedule` does not halt, keeps the
  -- invariant, and leaves a running thread such that no ready thread has a higher priority.
  pub kthreads_schedule-IsSettled :
      (k : Kernel)
      → IsLinked null k
      → IsRunnable k
      → (k' : Kernel) × (kthreads_schedule e k ≡ some k') × IsSettled k' × Undisturbed e k k'
  unfolding kthreads_schedule kthread_ready_list_highest
  kthreads_schedule-IsSettled k h r =
      let top = highest_below_lem e law.msb k.rdy_mask h.masks in
      let switch = switch-IsSettled k h r in
      elim (Bool-cases (is_running k)) [
        | inl run ↦
            rw run
              (elim (Bool-cases (
                is_above (highest_below e rdy_masks k.rdy_mask) (k.threads k.active_thread).prio)) [
                  | inl b ↦ rw b switch
                  | inr b ↦ rw b (k, refl, stay_top k _ h (test-IsRunning k run) top b, λ a o. refl)
                ])
        | inr run ↦
            let (p, eq, _) = top_queue k _ h (other_ready k r (halted_or_out k run)) top in
            rw (run, eq) switch
      ]
