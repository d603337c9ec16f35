-- ===== src/Messages.antt =====
-- kernel/messages.c. A `kmsg_q` is known by its address, which is also that of the `kgmsg_q` around a
-- global one; `own` gives the address of a thread's own queue, a place in its descriptor. A user's
-- address stands as `U2K_GET_ADR` has translated it, and `fresh` is what `kmalloc` returns. The
-- `list_t` of a queue is the list of the messages in it, so a message is known by its place in that
-- list. A type is an int, kept as its 32-bit word, since the code compares it as an unsigned number. A
-- call returns its value and the new state, or `none` where the kernel halts or reads a queue that
-- is not there.
pub mod Send
pub mod Receive
pub mod Spec
pub mod Refine
pub mod Calls
pub mod Lifetime
use diplomski_rad.Base.{
  ℕ, zero, suc, ◌+◌, Bool, not, ◌&&◌, ◌||◌, Option, none, some, List, [], ◌∷◌, ◌++◌, ltb, leb, ◌==◌,
  if◌then◌else◌, ◌>>=◌, update,
}
use diplomski_rad.Base.Int.{ℤ, pos, neg, ◌-ℤ◌}
use diplomski_rad.Base.Members.{erase}
use diplomski_rad.Errors.{
  success, e_invalid_handle, e_no_memory, e_dont_exist, e_invalid_type, e_ignored, e_too_big,
  e_empty, e_retry, exit,
}
use diplomski_rad.Threads.{
  Kernel, queue_of, null, passive, same_state, put_queue, put_thread, set_errno, kthread_enqueue,
  kthreadq_release, kthreadq_release_all,
}
use diplomski_rad.Scheduler.{Env, kthreads_schedule}
use diplomski_rad.Identifiers.{Ids, k_new_unique_id, k_free_unique_id}

-- `msg_t`: the bytes are those from `data` on.
pub record Message : Type 0 where
  pub type : ℕ
  pub size : ℕ
  pub bytes : List ℕ

-- `kmsg_q`, less its queue of threads.
pub record MsgQueue : Type 0 where
  pub msgs : List Message
  pub min_prio : ℕ

abbrev pub msg_queue : List Message → ℕ → MsgQueue
msg_queue msgs min_prio = record { msgs = msgs; min_prio = min_prio }

-- The kernel; the identifiers; the queues by their address (`none` where there is none) and the
-- `id`s of the global ones; the list of these; the words of each user's `msg_q` and `thread_t`; the
-- users' messages; and how each thread takes signals.
pub record Msgs : Type 0 where
  pub kernel : Kernel
  pub ids : Ids
  pub msg_queues : ℕ → Option MsgQueue
  pub gid : ℕ → ℕ
  pub kmsg_qs : List ℕ
  pub handle : ℕ → ℕ
  pub id : ℕ → ℕ
  pub thread : ℕ → ℕ
  pub thr_id : ℕ → ℕ
  pub messages : ℕ → Message
  pub sig_prio : ℕ → ℕ
  pub signal_handler : ℕ → ℕ

abbrev pub with_kernel : Msgs → ℤ × Kernel → Option (ℤ × Msgs)
with_kernel s (r, k) = some (r, record s { kernel = k })

-- The first bytes of a block over those of another, as `memcpy` leaves them.
unfoldable pub copy_bytes : ℕ → List ℕ → List ℕ → List ℕ
copy_bytes zero from over = over
copy_bytes (suc n) [] over = over
copy_bytes (suc n) (b ∷ from) [] = b ∷ copy_bytes n from []
copy_bytes (suc n) (b ∷ from) (c ∷ over) = b ∷ copy_bytes n from over

unfoldable pub k_thr_msg_init : (ℕ → ℕ) → ℕ → Msgs → Msgs
k_thr_msg_init own t s = record s {
  kernel = put_queue (queue_of (own t)) [] s.kernel;
  msg_queues = update s.msg_queues (own t) (some (msg_queue [] 0));
  sig_prio = update s.sig_prio t 0;
  signal_handler = update s.signal_handler t null;
}

unfoldable pub sys__thread_msg_set : (ℕ → ℕ) → ℕ → ℕ → ℕ → Msgs → Option (ℤ × Msgs)
sys__thread_msg_set own min_msg_prio min_sig_prio sig_handler s =
    let kthr = s.kernel.active_thread in
    do
      queue ← s.msg_queues (own kthr)
      with_kernel
          (record s {
            msg_queues = update s.msg_queues (own kthr) (some (msg_queue queue.msgs min_msg_prio));
            sig_prio = update s.sig_prio kthr min_sig_prio;
            signal_handler = update s.signal_handler kthr sig_handler;
          })
          (exit success s.kernel)

unfoldable pub sys__create_msg_queue : ℕ → ℕ → ℕ → Msgs → Option (ℤ × Msgs)
sys__create_msg_queue fresh msgq min_prio s =
    if msgq == null
    then with_kernel s (exit e_invalid_handle s.kernel)
    else if fresh == null
    then with_kernel s (exit e_no_memory s.kernel)
    else (do
      given ← k_new_unique_id s.ids
      with_kernel
          (record s {
            ids = given.1;
            msg_queues = update s.msg_queues fresh (some (msg_queue [] min_prio));
            gid = update s.gid fresh given.0;
            kmsg_qs = s.kmsg_qs ++ fresh ∷ [];
            handle = update s.handle msgq fresh;
            id = update s.id msgq given.0;
          })
          (exit success (put_queue (queue_of fresh) [] s.kernel)))

-- The loop of `k_msgq_clean` takes the messages off one by one, so it leaves none.
unfoldable pub k_msgq_clean : MsgQueue → MsgQueue
k_msgq_clean queue = clean queue.msgs
  where
    clean : List Message → MsgQueue
    clean [] = msg_queue [] queue.min_prio
    clean (m ∷ ms) = clean ms

unfoldable pub sys__delete_msg_queue : ℕ → Msgs → Option (ℤ × Msgs)
sys__delete_msg_queue msgq s =
    let gmsgq = s.handle msgq in
    if msgq == null then with_kernel s (exit e_invalid_handle s.kernel) else do
      queue ← s.msg_queues gmsgq
      if s.gid gmsgq == s.id msgq
          then (do
            freed ← k_free_unique_id (s.gid gmsgq) s.ids
            with_kernel
                (record s {
                  ids = freed;
                  msg_queues = update s.msg_queues gmsgq none;
                  handle = update s.handle msgq null;
                  id = update s.id msgq 0;
                })
                (exit success (kthreadq_release_all (queue_of gmsgq) s.kernel).1))
          else with_kernel s (exit e_invalid_handle s.kernel)

abbrev pub msg_to_queue : ℕ
msg_to_queue = 1

abbrev pub msg_to_thread : ℕ
msg_to_thread = 2
