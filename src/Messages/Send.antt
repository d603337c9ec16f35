-- ===== src/Messages/Send.antt =====
-- `sys__msg_post` of kernel/messages.c.
use diplomski_rad.Base.{
  ℕ, not, ◌&&◌, ◌||◌, Option, some, [], ◌∷◌, ◌++◌, leb, ◌==◌, if◌then◌else◌, ◌>>=◌, update,
}
use diplomski_rad.Base.Int.{ℤ, pos, ◌-ℤ◌}
use diplomski_rad.Errors.{
  success, e_invalid_handle, e_no_memory, e_dont_exist, e_invalid_type, e_ignored, exit,
}
use diplomski_rad.Threads.{
  Kernel, queue_of, null, passive, same_state, put_thread, set_errno, kthreadq_release,
}
use diplomski_rad.Scheduler.{Env, kthreads_schedule}
use diplomski_rad.Messages.{
  Message, msg_queue, Msgs, with_kernel, copy_bytes, msg_to_queue, msg_to_thread,
}

abbrev pub msg_signal : ℕ
msg_signal = 4

-- `kthread_get_descriptor`: the descriptor that a `thread_t` leads to, or `NULL`.
unfoldable pub kthread_get_descriptor : ℕ → Msgs → ℕ
kthread_get_descriptor thr s =
    let kthread = s.thread thr in
    if not (thr == null)
      && not (kthread == null)
      && (s.thr_id thr == (s.kernel.threads kthread).id)
      && not (same_state (s.kernel.threads kthread).state passive)
    then kthread
    else null

-- The part of `sys__msg_post` that sends a message to a queue.
unfoldable pub send_to_queue : Env → ℕ → ℕ → Message → Msgs → Option (ℤ × Msgs)
send_to_queue e fresh kmsgq msg s = do
  queue ← s.msg_queues kmsgq
  if leb queue.min_prio msg.type
      then if fresh == null then with_kernel s (exit e_no_memory s.kernel) else (do
        let kmsg = record msg { bytes = copy_bytes msg.size msg.bytes [] }
        let released = kthreadq_release (queue_of kmsgq) s.kernel
        k ← if released.0 then kthreads_schedule e released.1 else some released.1
        with_kernel
            (record s {
              msg_queues =
                  update s.msg_queues kmsgq
                    (some (msg_queue (queue.msgs ++ kmsg ∷ []) queue.min_prio));
            })
            (exit success k))
      else with_kernel s (exit e_ignored s.kernel)

-- `EXIT (kthread_get_errno (NULL))`.
abbrev exit_errno : Kernel → ℤ × Kernel
exit_errno k =
    let e = pos 0 -ℤ (k.threads k.active_thread).errno in
    (e, put_thread k.active_thread (record (k.threads k.active_thread) { errno = e }) k)

-- The part that sends a signal. `create` is `kthread_create`, on the descriptor whose process,
-- private storage and priority the new thread takes, the handler and the message: the new
-- descriptor, or `NULL`.
unfoldable pub send_signal :
    Env → (ℕ → ℕ → Message → Kernel → ℕ × Kernel) → ℕ → Message → Msgs → Option (ℤ × Msgs)
send_signal e create kthr msg s =
    if leb (s.sig_prio kthr) msg.type
    then (let made =
          create kthr (s.signal_handler kthr)
            (record msg { bytes = copy_bytes msg.size msg.bytes [] }) s.kernel in
        if made.0 == null
        then with_kernel s (exit_errno made.1)
        else do k ← kthreads_schedule e (set_errno success made.1); with_kernel s (pos 0, k))
    else with_kernel s (exit e_ignored s.kernel)

unfoldable pub sys__msg_post :
    Env
    → (ℕ → ℕ)
    → (ℕ → ℕ → Message → Kernel → ℕ × Kernel)
    → ℕ
    → ℕ
    → ℕ
    → ℕ
    → Msgs
    → Option (ℤ × Msgs)
sys__msg_post e own create fresh dest_type dest msg s =
    let kthr = kthread_get_descriptor dest s in
    let kgmsgq = s.handle dest in
    if (dest == null) || (msg == null)
    then with_kernel s (exit e_invalid_handle s.kernel)
    else if (dest_type == msg_to_thread) || (dest_type == msg_signal)
    then if kthr == null
      then with_kernel s (exit e_dont_exist s.kernel)
      else if dest_type == msg_to_thread
      then send_to_queue e fresh (own kthr) (s.messages msg) s
      else send_signal e create kthr (s.messages msg) s
    else if dest_type == msg_to_queue
    then if kgmsgq == null then with_kernel s (exit e_invalid_handle s.kernel) else (do
      queue ← s.msg_queues kgmsgq
      if s.gid kgmsgq == s.id dest
          then send_to_queue e fresh kgmsgq (s.messages msg) s
          else with_kernel s (exit e_invalid_handle s.kernel))
    else with_kernel s (exit e_invalid_type s.kernel)
