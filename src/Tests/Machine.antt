-- ===== src/Tests/Machine.antt =====
-- A machine of three threads under plain FIFO: 1 is active, 2 is ready, and 3 waits in the queue
-- of the object at 7.
use diplomski_rad.Base.{
  ℕ, ◌≡◌, refl, ◌≢◌, true, false, none, [], ◌∷◌, arith, ◌==◌, if◌then◌else◌, ltb,
}
use diplomski_rad.Base.Int.{pos}
use diplomski_rad.Base.Members.{is_empty}
use diplomski_rad.Bits.{msb_index_32}
use diplomski_rad.Bits.Msb.{msb_index_32-MsbIndex}
use diplomski_rad.Threads.{
  passive, Thread, Kernel, Place, ready_q, queue_of, null, at_last, prio_levels,
  kthread_ready_list_init, kthread_move_to_ready, kthreadq_append, kthread_ready_list_set_not_empty,
}
use diplomski_rad.Threads.Links.{IsLinked, IsLinked-out, Sits}
use diplomski_rad.Threads.Initial.{IsFresh, kthread_ready_list_init-IsLinked}
use diplomski_rad.Threads.Ready.{kthread_move_to_ready-IsLinked}
use diplomski_rad.Threads.Waiting.{enqueued, enqueued-IsLinked}
use diplomski_rad.Scheduler.{Env}
use diplomski_rad.Scheduler.Laws.{IsSettled, IsLawful, HasReady}
use diplomski_rad.Scheduler.Select.{promoted, promoted-IsLinked}

-- No policy has a secondary scheduler.
abbrev pub fifo : Env
fifo = record { msb_index = msb_index_32; ksched = λ policy. none; is_private = λ a. false }

pub fifo-IsLawful : IsLawful fifo
fifo-IsLawful = record {
  msb = msb_index_32-MsbIndex.0;
  activates = λ policy t k s. (k, refl, s, λ a o. refl);
  deactivates = λ policy t k s. (k, refl, s, λ a o. refl);
}

abbrev pub prio_of : ℕ → ℕ
prio_of t = if t == 1 then 5 else if t == 2 then 3 else if t == 3 then 7 else 0

abbrev pub newborn : ℕ → Thread
newborn t = record {
  id = t;
  state = passive;
  prio = prio_of t;
  sched_policy = 0;
  activated = false;
  queue = none;
  qdata = 9;
  exit_status = pos 0;
  errno = pos 0;
  ref_cnt = if t == 1 then pos 2 else pos 1;
}

abbrev pub fresh : Kernel
fresh = record { threads = newborn; queues = λ q. []; rdy_mask = []; active_thread = 0 }

pub fresh-IsFresh : IsFresh fresh
fresh-IsFresh = record {
  passive = λ t. refl;
  levels = λ t. ground arith;
  beyond = λ i h. refl;
  joins = λ d. refl;
  objects = λ a. refl;
}

abbrev pub started : Kernel
started = kthread_ready_list_init fresh

no_seat : (t : ℕ) (q : Place) (th : Thread) → th.state ≡ passive → ¬ Sits th q
no_seat t (ready_q p) th e s = cc (s.0, e)
no_seat t (Place.join_queue d) th e s = cc (s, e)
no_seat t (queue_of a) th e s = cc (s, e)

pub started_out : (t : ℕ) → t ≢ null → IsLinked t started
started_out t nt =
    IsLinked-out t started (kthread_ready_list_init-IsLinked fresh fresh-IsFresh) nt
      (λ q s. no_seat t q (started.threads t) (unfold kthread_ready_list_init in refl) s)

abbrev pub with_ready : Kernel
with_ready = kthread_move_to_ready 2 at_last started

with_ready-IsLinked : IsLinked null with_ready
with_ready-IsLinked =
    kthread_move_to_ready-IsLinked 2 started (started_out 2 (omega arith)) (omega arith) at_last

abbrev pub with_waiter : Kernel
with_waiter = enqueued 3 (queue_of 7) with_ready

with_waiter-IsLinked : IsLinked null with_waiter
with_waiter-IsLinked =
    enqueued-IsLinked 3 (queue_of 7) with_ready tt
      (IsLinked-out 3 with_ready with_ready-IsLinked (omega arith) (λ q s.
        no_seat 3 q (with_ready.threads 3)
          (unfold kthread_ready_list_init kthread_move_to_ready kthreadq_append
              kthread_ready_list_set_not_empty in
            refl)
          s))
      (omega arith)

abbrev pub machine : Kernel
machine = promoted 1 with_waiter

pub machine-IsLinked : IsLinked null machine
machine-IsLinked =
    promoted-IsLinked 1 with_waiter
      (IsLinked-out 1 with_waiter with_waiter-IsLinked (omega arith) (λ q s.
        no_seat 1 q (with_waiter.threads 1)
          (unfold kthread_ready_list_init kthread_move_to_ready kthreadq_append
              kthread_ready_list_set_not_empty in
            refl)
          s))
      (omega arith)
      (λ n. absurd (
        n (
          unfold kthread_ready_list_init kthread_move_to_ready kthreadq_append
            kthread_ready_list_set_not_empty in
          refl)))

pub machine-IsSettled : IsSettled machine
unfolding kthread_ready_list_init kthread_move_to_ready kthreadq_append
    kthread_ready_list_set_not_empty promoted is_empty
machine-IsSettled = record {
  linked = machine-IsLinked;
  running = (omega arith, refl);
  top = λ p hp l.
      let ne : (p == 3) ≡ false = ground (arith, l) in
      let lt : ltb p prio_levels ≡ true = ground (arith, hp) in rw (ne, lt) refl;
}

pub machine-HasReady : HasReady machine
unfolding kthread_ready_list_init kthread_move_to_ready kthreadq_append
    kthread_ready_list_set_not_empty promoted is_empty
machine-HasReady = (3, omega arith, refl)

pub machine-queue : machine.queues (queue_of 7) ≡ 3 ∷ []
unfolding kthread_ready_list_init kthread_move_to_ready kthreadq_append
    kthread_ready_list_set_not_empty promoted
machine-queue = refl

pub machine-active : machine.active_thread ≡ 1
unfolding promoted
machine-active = refl
