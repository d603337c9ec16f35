-- ===== src/Messages/Receive.antt =====
-- `sys__msg_recv` of kernel/messages.c.
use diplomski_rad.Base.{
  ℕ, ◌+◌, Bool, not, ◌&&◌, ◌||◌, Option, none, some, List, [], ◌∷◌, ltb, ◌==◌, if◌then◌else◌, ◌>>=◌,
  update,
}
use diplomski_rad.Base.Int.{ℤ, neg}
use diplomski_rad.Errors.{
  success, e_invalid_handle, e_invalid_type, e_too_big, e_empty, e_retry, exit,
}
use diplomski_rad.Threads.{queue_of, null, set_errno, kthread_enqueue}
use diplomski_rad.Scheduler.{Env, kthreads_schedule}
use diplomski_rad.Messages.{
  Message, MsgQueue, msg_queue, Msgs, with_kernel, copy_bytes, msg_to_queue, msg_to_thread,
}

abbrev pub tail {ℓ} : {A : Type ℓ} → List A → List A
tail [] = []
tail (x ∷ xs) = xs

-- The search of `sys__msg_recv`: the message and its place, counted from `place`. Type 0 takes the
-- first message.
unfoldable pub search : ℕ → ℕ → List Message → Option (ℕ × Message)
search type place [] = none
search type place (m ∷ ms) =
    let next = search type (place + 1) ms in
    if not (type == 0) && not (m.type == type) then next else some (place, m)

-- What `sys__msg_recv` does with a message it has found: the check of its size, the copy, and the
-- removal of the first message, which has to be the one found.
unfoldable pub take_message : ℕ → ℕ → ℕ → MsgQueue → ℕ × Message → Msgs → Option (ℤ × Msgs)
take_message kmsgq msg size queue (place, kmsg) s =
    let user = s.messages msg in
    if ltb size kmsg.size
    then with_kernel (record s { messages = update s.messages msg (record user { size = 0 }) })
        (exit e_too_big s.kernel)
    else if place == 0
    then with_kernel
        (record s {
          messages = update s.messages msg (record {
            type = kmsg.type;
            size = kmsg.size;
            bytes = copy_bytes kmsg.size kmsg.bytes user.bytes;
          });
          msg_queues =
              update s.msg_queues kmsgq (some (msg_queue (tail queue.msgs) queue.min_prio));
        })
        (exit success s.kernel)
    else none

-- And with an empty queue, or one without a message of the type.
unfoldable pub wait_for_message : Env → ℕ → Bool → Msgs → Option (ℤ × Msgs)
wait_for_message e kmsgq ipc_wait s =
    if not ipc_wait then with_kernel s (exit e_empty s.kernel) else do
      k1 ← kthread_enqueue null (queue_of kmsgq) (set_errno e_retry s.kernel)
      k2 ← kthreads_schedule e k1
      with_kernel s (neg e_retry, k2)

unfoldable pub finish_receive :
    Env → ℕ → ℕ → ℕ → Bool → MsgQueue → Option (ℕ × Message) → Msgs → Option (ℤ × Msgs)
finish_receive e kmsgq msg size ipc_wait queue (some found) s =
    take_message kmsgq msg size queue found s
finish_receive e kmsgq msg size ipc_wait queue none s = wait_for_message e kmsgq ipc_wait s

unfoldable pub receive_from : Env → ℕ → ℕ → ℕ → ℕ → Bool → Msgs → Option (ℤ × Msgs)
receive_from e kmsgq msg type size ipc_wait s = do
  queue ← s.msg_queues kmsgq
  finish_receive e kmsgq msg size ipc_wait queue (search type 0 queue.msgs) s

-- `ipc_wait` tells whether the flag `IPC_WAIT` is set.
unfoldable pub sys__msg_recv : Env → (ℕ → ℕ) → ℕ → ℕ → ℕ → ℕ → ℕ → Bool → Msgs → Option (ℤ × Msgs)
sys__msg_recv e own src_type src msg type size ipc_wait s =
    let kgmsgq = s.handle src in
    if (src == null) || (msg == null)
    then with_kernel s (exit e_invalid_handle s.kernel)
    else if src_type == msg_to_thread
    then receive_from e (own s.kernel.active_thread) msg type size ipc_wait s
    else if src_type == msg_to_queue
    then if kgmsgq == null then with_kernel s (exit e_invalid_handle s.kernel) else (do
      queue ← s.msg_queues kgmsgq
      if s.gid kgmsgq == s.id src
          then receive_from e kgmsgq msg type size ipc_wait s
          else with_kernel s (exit e_invalid_handle s.kernel))
    else with_kernel s (exit e_invalid_type s.kernel)
