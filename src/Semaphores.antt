-- ===== src/Semaphores.antt =====
-- kernel/semaphore.c. The argument `sem` is the address of the user's `sem_t`, as `U2K_GET_ADR`
-- has translated it; `fresh` is what `kmalloc` returns. A call returns its value and the new state,
-- or `none` where the kernel halts or
-- reads a `ksem_t` that is not there.
pub mod Spec
pub mod Refine
pub mod Lifetime
use diplomski_rad.Base.{ℕ, Bool, ◌||◌, Option, none, some, [], ◌==◌, if◌then◌else◌, ◌>>=◌}
use diplomski_rad.Base.Int.{ℤ, pos, ◌+ℤ◌, ◌-ℤ◌, ltb_ℤ}
use diplomski_rad.Errors.{success, e_invalid_handle, exit}
use diplomski_rad.Threads.{
  Kernel, Place, queue_of, null, update, put_queue, set_errno, kthread_enqueue, kthreadq_release,
  kthreadq_release_all,
}
use diplomski_rad.Scheduler.{Env, kthreads_schedule}

-- The kernel, the `sem_value` of each `ksem_t` by its address (`none` where there is none), and the
-- word `ptr` of each `sem_t`.
pub record Sems : Type 0 where
  pub kernel : Kernel
  pub sem_value : ℕ → Option ℤ
  pub ptr : ℕ → ℕ

abbrev with_kernel : Sems → ℤ × Kernel → Option (ℤ × Sems)
with_kernel s (r, k) = some (r, record s { kernel = k })

unfoldable pub sys__sem_init : ℕ → ℕ → ℤ → Sems → Option (ℤ × Sems)
sys__sem_init fresh sem initial_value s =
    if sem == null
    then with_kernel s (exit e_invalid_handle s.kernel)
    else if fresh == null
    then none
    else with_kernel
        (record s {
          sem_value = update s.sem_value fresh (some initial_value);
          ptr = update s.ptr sem fresh;
        })
        (exit success (put_queue (queue_of fresh) [] s.kernel))

unfoldable pub sys__sem_destroy : Env → ℕ → Sems → Option (ℤ × Sems)
sys__sem_destroy e sem s =
    let ksem = s.ptr sem in
    if (sem == null) || (ksem == null) then with_kernel s (exit e_invalid_handle s.kernel) else do
      live ← s.sem_value ksem
      let released = kthreadq_release_all (queue_of ksem) s.kernel
      k ← if released.0 == 0 then some released.1 else kthreads_schedule e released.1
      with_kernel
          (record s { sem_value = update s.sem_value ksem none; ptr = update s.ptr sem null })
          (exit success k)

unfoldable pub sys__sem_post : Env → ℕ → Sems → Option (ℤ × Sems)
sys__sem_post e sem s =
    let ksem = s.ptr sem in
    if (sem == null) || (ksem == null) then with_kernel s (exit e_invalid_handle s.kernel) else do
      let released = kthreadq_release (queue_of ksem) (set_errno success s.kernel)
      value ← s.sem_value ksem
      if released.0
          then (do k ← kthreads_schedule e released.1; some (pos 0, record s { kernel = k }))
          else some (
            pos 0,
            record s {
              kernel = released.1;
              sem_value = update s.sem_value ksem (some (value +ℤ pos 1));
            },
          )

unfoldable pub sys__sem_wait : Env → ℕ → Sems → Option (ℤ × Sems)
sys__sem_wait e sem s =
    let ksem = s.ptr sem in
    if (sem == null) || (ksem == null) then with_kernel s (exit e_invalid_handle s.kernel) else do
      let k = set_errno success s.kernel
      value ← s.sem_value ksem
      if ltb_ℤ (pos 0) value
          then some (
            pos 0,
            record s { kernel = k; sem_value = update s.sem_value ksem (some (value -ℤ pos 1)) },
          )
          else (do
            k1 ← kthread_enqueue null (queue_of ksem) k
            k2 ← kthreads_schedule e k1
            some (pos 0, record s { kernel = k2 }))
