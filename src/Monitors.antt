-- ===== src/Monitors.antt =====
-- kernel/monitor.c. The arguments `monitor` and `queue` are the addresses of the user's `monitor_t`
-- and `monitor_q`, as `U2K_GET_ADR` has translated them; `fresh` is what `kmalloc` returns. A call
-- returns its value and the new state, or `none` where the kernel halts or reads an object that is
-- not there.
pub mod Spec
pub mod Refine
pub mod Conditions
pub mod Going
pub mod Release
pub mod Broadcast
pub mod Lifetime
use diplomski_rad.Base.{
  ℕ, zero, suc, ◌+◌, Bool, true, false, not, ◌&&◌, ◌||◌, Option, none, some, [], ◌==◌,
  if◌then◌else◌, ◌>>=◌, length,
}
use diplomski_rad.Base.Int.{ℤ, pos}
use diplomski_rad.Errors.{success, e_invalid_handle, e_no_memory, e_not_owner, exit}
use diplomski_rad.Threads.{
  Kernel, queue_of, null, update, put_queue, put_thread, set_errno, kthread_enqueue,
  kthreadq_remove, kthreadq_get, kthreadq_release, kthreadq_release_all,
}
use diplomski_rad.Scheduler.{Env, kthreads_schedule}

-- `kmonitor_t`, less its queue.
pub record Kmonitor : Type 0 where
  pub lock : Bool
  pub owner : ℕ

-- The kernel, each `kmonitor_t` by its address, whether there is a `kmonitor_q` at an address, and
-- the word `ptr` of each `monitor_t` and `monitor_q`.
pub record Monitors : Type 0 where
  pub kernel : Kernel
  pub kmonitor : ℕ → Option Kmonitor
  pub kqueue : ℕ → Option (Unit {0})
  pub ptr : ℕ → ℕ

abbrev pub with_kernel : Monitors → ℤ × Kernel → Option (ℤ × Monitors)
with_kernel s (r, k) = some (r, record s { kernel = k })

abbrev pub monitor_of : Bool → ℕ → Kmonitor
monitor_of l o = record { lock = l; owner = o }

unfoldable pub sys__monitor_init : ℕ → ℕ → Monitors → Option (ℤ × Monitors)
sys__monitor_init fresh monitor s =
    if monitor == null
    then with_kernel s (exit e_invalid_handle s.kernel)
    else if fresh == null
    then with_kernel s (exit e_no_memory s.kernel)
    else with_kernel
        (record s {
          kmonitor = update s.kmonitor fresh (some (monitor_of false null));
          ptr = update s.ptr monitor fresh;
        })
        (exit success (put_queue (queue_of fresh) [] s.kernel))

unfoldable pub sys__monitor_destroy : Env → ℕ → Monitors → Option (ℤ × Monitors)
sys__monitor_destroy e monitor s =
    let kmonitor = s.ptr monitor in
    if (monitor == null) || (kmonitor == null)
    then with_kernel s (exit e_invalid_handle s.kernel)
    else do
      live ← s.kmonitor kmonitor
      let released = kthreadq_release_all (queue_of kmonitor) s.kernel
      k ← if released.0 == 0 then some released.1 else kthreads_schedule e released.1
      with_kernel
          (record s { kmonitor = update s.kmonitor kmonitor none; ptr = update s.ptr monitor null })
          (exit success k)

unfoldable pub sys__monitor_queue_init : ℕ → ℕ → Monitors → Option (ℤ × Monitors)
sys__monitor_queue_init fresh queue s =
    if queue == null
    then with_kernel s (exit e_invalid_handle s.kernel)
    else if fresh == null
    then with_kernel s (exit e_no_memory s.kernel)
    else with_kernel
        (record s { kqueue = update s.kqueue fresh (some tt); ptr = update s.ptr queue fresh })
        (exit success (put_queue (queue_of fresh) [] s.kernel))

unfoldable pub sys__monitor_queue_destroy : Env → ℕ → Monitors → Option (ℤ × Monitors)
sys__monitor_queue_destroy e queue s =
    let kqueue = s.ptr queue in
    if (queue == null) || (kqueue == null)
    then with_kernel s (exit e_invalid_handle s.kernel)
    else do
      live ← s.kqueue kqueue
      let released = kthreadq_release_all (queue_of kqueue) s.kernel
      k ← if released.0 == 0 then some released.1 else kthreads_schedule e released.1
      with_kernel (record s { kqueue = update s.kqueue kqueue none; ptr = update s.ptr queue null })
          (exit success k)

unfoldable pub sys__monitor_lock : Env → ℕ → Monitors → Option (ℤ × Monitors)
sys__monitor_lock e monitor s =
    let kmonitor = s.ptr monitor in
    if (monitor == null) || (kmonitor == null)
    then with_kernel s (exit e_invalid_handle s.kernel)
    else do
      let k = set_errno success s.kernel
      m ← s.kmonitor kmonitor
      if not m.lock
          then some (
            pos 0,
            record s {
              kernel = k;
              kmonitor = update s.kmonitor kmonitor (some (monitor_of true k.active_thread));
            },
          )
          else (do
            k1 ← kthread_enqueue null (queue_of kmonitor) k
            k2 ← kthreads_schedule e k1
            some (pos 0, record s { kernel = k2 }))

unfoldable pub sys__monitor_unlock : Env → ℕ → Monitors → Option (ℤ × Monitors)
sys__monitor_unlock e monitor s =
    let kmonitor = s.ptr monitor in
    if (monitor == null) || (kmonitor == null)
    then with_kernel s (exit e_invalid_handle s.kernel)
    else do
      m ← s.kmonitor kmonitor
      if not (m.owner == s.kernel.active_thread)
          then with_kernel s (exit e_not_owner s.kernel)
          else (do
            let k = set_errno success s.kernel
            let next = kthreadq_get (queue_of kmonitor) k
            let released = kthreadq_release (queue_of kmonitor) k
            if released.0
                then (do
                  k1 ← kthreads_schedule e released.1
                  some (
                    pos 0,
                    record s {
                      kernel = k1;
                      kmonitor = update s.kmonitor kmonitor (some (monitor_of m.lock next));
                    },
                  ))
                else some (
                  pos 0,
                  record s {
                    kernel = released.1;
                    kmonitor = update s.kmonitor kmonitor (some (monitor_of false next));
                  },
                ))

-- `kthread_set_qdata (NULL, d)`.
unfoldable pub kthread_set_qdata : ℕ → Kernel → Kernel
kthread_set_qdata d k =
    put_thread k.active_thread (record (k.threads k.active_thread) { qdata = d }) k

unfoldable pub sys__monitor_wait : Env → ℕ → ℕ → Monitors → Option (ℤ × Monitors)
sys__monitor_wait e monitor queue s =
    let kmonitor = s.ptr monitor in
    let kqueue = s.ptr queue in
    if (monitor == null) || (kmonitor == null) || (queue == null) || (kqueue == null)
    then with_kernel s (exit e_invalid_handle s.kernel)
    else do
      m ← s.kmonitor kmonitor
      if not (m.owner == s.kernel.active_thread)
          then with_kernel s (exit e_not_owner s.kernel)
          else (do
            live ← s.kqueue kqueue
            let k = kthread_set_qdata kmonitor (set_errno success s.kernel)
            k1 ← kthread_enqueue null (queue_of kqueue) k
            let next = kthreadq_get (queue_of kmonitor) k1
            let released = kthreadq_release (queue_of kmonitor) k1
            k2 ← kthreads_schedule e released.1
            some (
              pos 0,
              record s {
                kernel = k2;
                kmonitor =
                    update s.kmonitor kmonitor (some (monitor_of (released.0 && m.lock) next));
              },
            ))

-- One round of the loop of `k_monitor_release`: `kthr`, `reschedule` and the new state.
unfoldable pub release_one : ℕ → ℕ → Monitors → Option (ℕ × ℕ × Monitors)
release_one kqueue reschedule s =
    let kthr = kthreadq_get (queue_of kqueue) s.kernel in
    let kmonitor = (s.kernel.threads kthr).qdata in
    if kthr == null then some (null, reschedule, s) else do
      m ← s.kmonitor kmonitor
      if not m.lock
          then some (
            kthr,
            reschedule + 1,
            record s {
              kmonitor = update s.kmonitor kmonitor (some (monitor_of true kthr));
              kernel = (kthreadq_release (queue_of kqueue) s.kernel).1;
            },
          )
          else (do
            let removed = kthreadq_remove (queue_of kqueue) null s.kernel
            k ← kthread_enqueue removed.0 (queue_of kmonitor) removed.1
            some (removed.0, reschedule, record s { kernel = k }))

-- The loop, for at most `fuel` rounds: `none` where they are not enough.
unfoldable pub monitor_release_loop : ℕ → Bool → ℕ → ℕ → Monitors → Option (ℕ × Monitors)
monitor_release_loop zero broadcast kqueue reschedule s = none
monitor_release_loop (suc fuel) broadcast kqueue reschedule s = do
  one ← release_one kqueue reschedule s
  let again = monitor_release_loop fuel broadcast kqueue one.1 one.2
  if not (one.0 == null) && broadcast then again else some (one.1, one.2)

-- A round takes a thread out of the queue, so its length and one more are enough.
unfoldable pub k_monitor_release : Env → ℕ → Bool → Monitors → Option (ℤ × Monitors)
k_monitor_release e queue broadcast s =
    let kqueue = s.ptr queue in
    if (queue == null) || (kqueue == null)
    then with_kernel s (exit e_invalid_handle s.kernel)
    else do
      live ← s.kqueue kqueue
      let fuel = length (s.kernel.queues (queue_of kqueue)) + 1
      done ← monitor_release_loop fuel broadcast kqueue 0 s
      let k = set_errno success done.1.kernel
      k1 ← if done.0 == 0 then some k else kthreads_schedule e k
      some (pos 0, record done.1 { kernel = k1 })

unfoldable pub sys__monitor_signal : Env → ℕ → Monitors → Option (ℤ × Monitors)
sys__monitor_signal e queue s = k_monitor_release e queue false s

unfoldable pub sys__monitor_broadcast : Env → ℕ → Monitors → Option (ℤ × Monitors)
sys__monitor_broadcast e queue s = k_monitor_release e queue true s
