-- ===== src/Tests/Endings.antt =====
-- The end of threads on the small machine: thread 1 exits while another one holds a reference to it,
-- and thread 3, which waits in the queue at 7, is cancelled.
use diplomski_rad.Base.{◌+◌, ◌≡◌, refl, ap, ◌∙◌, none, some, [], ◌∷◌, ◌==◌, arith, true}
use diplomski_rad.Base.Int.{pos}
use diplomski_rad.Base.Members.{has}
use diplomski_rad.Bits.Msb.{msb_index_32-MsbIndex}
use diplomski_rad.Identifiers.{ids, k_free_unique_id, k_new_unique_id, next_id}
use diplomski_rad.Threads.{
  Kernel, null, put_thread, kthread_ready_list_init, kthread_move_to_ready, kthreadq_append,
  kthread_ready_list_set_not_empty,
}
use diplomski_rad.Scheduler.{kthreads_schedule}
use diplomski_rad.Scheduler.Laws.{IsSettled}
use diplomski_rad.Scheduler.Select.{promoted}
use diplomski_rad.Lifetimes.{Procs, with_kernel}
use diplomski_rad.Lifetimes.Calls.{
  thread_at, sys__thread_exit, sys__wait_for_thread, sys__cancel_thread,
}
use diplomski_rad.Lifetimes.Exit.{Exited, exited, sys__thread_exit-Exited}
use diplomski_rad.Lifetimes.Collect.{SameStatus, Collected, sys__wait_for_thread-Collected}
use diplomski_rad.Lifetimes.Twice.{IsBlocked, IsSettled-IsCalm, sys__cancel_thread-FreedTwice}
use diplomski_rad.Lifetimes.Start.{kthreads_init}
use diplomski_rad.Lifetimes.First.{kthreads_init-IsSettled}
use diplomski_rad.Policies.{ksched_init, init_from}
use diplomski_rad.Tests.Machine.{
  fresh, fresh-IsFresh, fifo, fifo-IsLawful, machine, machine-IsSettled, machine-HasReady,
}

-- The identifiers 1 and 3 are in use.
abbrev endings : Procs
endings = record {
  kernel = machine;
  all_threads = 1 ∷ 2 ∷ 3 ∷ [];
  procs = 9 ∷ [];
  ids = ids (10 ∷ []) 3;
  stack = λ t. 200 + t;
  private_storage = λ t. null;
  proc = λ t. 9;
  thr_count = λ p. pos 3;
  pi = λ p. 300;
  freed = [];
}

refs : (thread_at endings 1).ref_cnt ≡ pos 2
unfolding kthread_ready_list_init kthread_move_to_ready kthreadq_append
    kthread_ready_list_set_not_empty promoted
refs = refl

plain : fifo.ksched (thread_at endings machine.active_thread).sched_policy ≡ none
plain = refl

listed : has 9 endings.procs ≡ true
unfolding has
listed = refl

current : machine.active_thread ≡ 1
unfolding promoted
current = refl

current_refs : (thread_at endings machine.active_thread).ref_cnt ≡ pos 2
current_refs = ap (λ t. (thread_at endings t).ref_cnt) current ∙ refs

sys__thread_exit-Exited_example :
    (s' : Procs) × (k : Kernel) × (sys__thread_exit fifo (pos 4) endings
      ≡ some (pos 0, with_kernel s' k))
    × (kthreads_schedule fifo s'.kernel ≡ some k)
    × Exited machine.active_thread (pos 4) endings s'
    × IsSettled k
sys__thread_exit-Exited_example =
    sys__thread_exit-Exited fifo fifo-IsLawful (pos 4) endings machine-IsSettled plain 0
      current_refs (λ z. listed) machine-HasReady

-- The exit leaves this state, and the status is collected in a later one.
after : (s' : Procs) × Exited machine.active_thread (pos 4) endings s'
after =
    let r =
      sys__thread_exit-Exited fifo fifo-IsLawful (pos 4) endings machine-IsSettled plain 0
        current_refs (λ z. listed) machine-HasReady in
    (r.0, r.4)

abbrev later : Procs
later =
    let t = machine.active_thread in
    with_kernel endings (put_thread t (exited (pos 4) (thread_at endings t)) machine)

later-SameStatus :
    SameStatus (thread_at later machine.active_thread) (thread_at after.0 machine.active_thread)
later-SameStatus =
    let t = machine.active_thread in
    let same : (t == t) ≡ true = ground arith in
    rw same
      (rw (after.1.kept) (record { state = refl; id = refl; exit_status = refl; ref_cnt = refl }))

threads_listed : has machine.active_thread later.all_threads ≡ true
unfolding has promoted
threads_listed = refl

taken :
    k_free_unique_id (thread_at endings machine.active_thread).id later.ids ≡ some (ids (8 ∷ []) 3)
unfolding kthread_ready_list_init kthread_move_to_ready kthreadq_append
    kthread_ready_list_set_not_empty promoted k_free_unique_id
taken = refl

sys__wait_for_thread-Collected_example :
    (r' : Procs) × (sys__wait_for_thread fifo
        (some (machine.active_thread, (thread_at endings machine.active_thread).id))
        true
        later
      ≡ some (pos 4, r'))
    × Collected machine.active_thread 0 later r'
sys__wait_for_thread-Collected_example =
    sys__wait_for_thread-Collected fifo machine.active_thread 0 (pos 4) endings after.0 later
      (ids (8 ∷ []) 3) true after.1 machine-IsSettled.running.0 current_refs later-SameStatus
      threads_listed taken

all_listed : has 3 endings.all_threads ≡ true
unfolding has
all_listed = refl

waiting_refs : (thread_at endings 3).ref_cnt ≡ pos 1
unfolding kthread_ready_list_init kthread_move_to_ready kthreadq_append
    kthread_ready_list_set_not_empty promoted
waiting_refs = refl

waiting_taken : k_free_unique_id (thread_at endings 3).id endings.ids ≡ some (ids (2 ∷ []) 3)
unfolding kthread_ready_list_init kthread_move_to_ready kthreadq_append
    kthread_ready_list_set_not_empty promoted k_free_unique_id
waiting_taken = refl

waiting-IsBlocked : IsBlocked fifo 3 7 endings
unfolding kthread_ready_list_init kthread_move_to_ready kthreadq_append
    kthread_ready_list_set_not_empty promoted
waiting-IsBlocked = record {
  calm = IsSettled-IsCalm machine machine-IsSettled;
  there = omega arith;
  other = refl;
  state = refl;
  queue = refl;
  plain = refl;
  stack = refl;
  storage = refl;
  nobody = refl;
}

sys__cancel_thread-FreedTwice_example :
    (s' : Procs) × (sys__cancel_thread fifo (some (3, (thread_at endings 3).id)) endings
      ≡ some (pos 0, s'))
    × (s'.freed ≡ 203 ∷ 3 ∷ 203 ∷ [])
    × (s'.thr_count 9 ≡ pos 1)
sys__cancel_thread-FreedTwice_example =
    sys__cancel_thread-FreedTwice fifo msb_index_32-MsbIndex.0 3 7 0 endings (ids (2 ∷ []) 3)
      waiting-IsBlocked refl waiting_refs all_listed waiting_taken

no_inits :
    ksched_init (λ i. none) (kthread_ready_list_init fresh) ≡ some (kthread_ready_list_init fresh)
unfolding ksched_init init_from
no_inits = refl

fourth_id : k_new_unique_id (ids (10 ∷ []) 3) ≡ some (4, ids (26 ∷ []) 4)
unfolding k_new_unique_id next_id
fourth_id = refl

kthreads_init-IsSettled_example :
    (s' : Procs) × (kthreads_init fifo (λ i. none) 9 1 201 (record endings { kernel = fresh })
      ≡ some s')
    × IsSettled s'.kernel
    × (s'.all_threads ≡ 1 ∷ [])
kthreads_init-IsSettled_example =
    kthreads_init-IsSettled fifo fifo-IsLawful refl (λ i. none) 9 1 201
      (record endings { kernel = fresh }) (4, ids (26 ∷ []) 4) (omega arith) (omega arith)
      fresh-IsFresh no_inits fourth_id
