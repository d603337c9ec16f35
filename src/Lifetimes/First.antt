-- ===== src/Lifetimes/First.antt =====
-- What `kthreads_init` leaves: the idle thread runs.
use diplomski_rad.Base.{
  ℕ, ◌≡◌, ◌≢◌, refl, ap, fun_ext, inl, inr, false, none, some, List, [], ◌∷◌, ◌==◌, Bool-cases,
  arith, Option,
}
use diplomski_rad.Base.Int.{pos}
use diplomski_rad.Identifiers.{Ids, k_new_unique_id}
use diplomski_rad.Threads.{
  Kernel, Thread, Place, ready_q, join_queue, queue_of, passive, null, at_last, put_thread,
  put_queue, same_place, kthread_ready_list_init, kthread_move_to_ready,
}
use diplomski_rad.Threads.Links.{IsLinked, Sits, IsLinked-out, IsLinked-put_thread, same_place-eq}
use diplomski_rad.Threads.Fields.{IsLinked-SameLinks}
use diplomski_rad.Threads.Initial.{IsFresh, kthread_ready_list_init-IsLinked}
use diplomski_rad.Threads.Ready.{kthread_move_to_ready-IsLinked}
use diplomski_rad.Scheduler.{Env, kthreads_schedule}
use diplomski_rad.Scheduler.Laws.{IsSettled, IsLawful, HasReady}
use diplomski_rad.Scheduler.Retire.{moved-HasReady}
use diplomski_rad.Scheduler.Schedule.{kthreads_schedule-IsSettled}
use diplomski_rad.Lifetimes.{Procs, clamp_prio, ksched_thread_add, kthread_create}
use diplomski_rad.Lifetimes.Start.{kthreads_init}
use diplomski_rad.Policies.{ksched_init}

-- The kernel before the idle thread is made.
abbrev bare : Kernel → Kernel
bare k = record (kthread_ready_list_init k) { active_thread = null }

no_seat : (th : Thread) → th.state ≡ passive → (q : Place) → ¬ Sits th q
no_seat th e (ready_q p) s = cc (s.0, e)
no_seat th e (join_queue d) s = cc (s, e)
no_seat th e (queue_of a) s = cc (s, e)

bare-IsLinked : (k : Kernel) → IsFresh k → IsLinked null (bare k)
unfolding kthread_ready_list_init
bare-IsLinked k f =
    let h = kthread_ready_list_init-IsLinked k f in
    record {
      away = h.away;
      no_null = h.no_null;
      linked = h.linked;
      once = h.once;
      levels = h.levels;
      masks = h.masks;
      marks = h.marks;
      sole = λ t nt no s. cc (s, f.passive t);
      seated = h.seated;
    }

-- The descriptor of the idle thread, in a kernel in which no thread waits for it.
abbrev newborn : ℕ → ℕ → Kernel → Kernel
newborn t id k =
    put_thread t
      (record (k.threads t) {
        id = id;
        state = passive;
        prio = 0;
        queue = none;
        exit_status = pos 0;
        ref_cnt = pos 1;
      })
      k

newborn-IsLinked :
    (t id : ℕ) (k : Kernel) → t ≢ null → IsFresh k → IsLinked t (newborn t id (bare k))
unfolding kthread_ready_list_init
newborn-IsLinked t id k nt f =
    IsLinked-put_thread t _ (bare k)
      (IsLinked-out t (bare k) (bare-IsLinked k f) nt (no_seat ((bare k).threads t) (f.passive t)))
      (omega arith)

unjoined : (t : ℕ) (k : Kernel) → k.queues (join_queue t) ≡ [] → put_queue (join_queue t) [] k ≡ k
unjoined t k e =
    ap (λ (q : Place → List ℕ). record k { queues = q })
      (fun_ext λ p. elim (Bool-cases (same_place p (join_queue t))) [
        | inl s ↦ rw (s, same_place-eq p (join_queue t) s, e) refl
        | inr s ↦ rw s refl
      ])

-- The descriptor gets its policy after it is made ready.
abbrev planned : ℕ → Kernel → Kernel
planned t k = put_thread t (record (k.threads t) { sched_policy = 0; activated = false }) k

module _ (e : Env) (law : IsLawful e) (t id : ℕ) (k : Kernel) (nt : t ≢ null) (f : IsFresh k) where
  abbrev moved : Kernel
  moved = kthread_move_to_ready t at_last (newborn t id (bare k))

  planned-IsLinked : IsLinked null (planned t moved)
  planned-IsLinked =
      IsLinked-SameLinks t _ moved (record { state = refl; prio = refl; queue = refl })
        (kthread_move_to_ready-IsLinked t _ (newborn-IsLinked t id k nt f) nt at_last)

  planned-HasReady : HasReady (planned t moved)
  planned-HasReady = moved-HasReady t _ (newborn-IsLinked t id k nt f) nt

  first_switch : (k' : Kernel) × (kthreads_schedule e (planned t moved) ≡ some k') × IsSettled k'
  first_switch =
      let (k', eq, s, _) =
        kthreads_schedule-IsSettled e law (planned t moved) planned-IsLinked
          (inr planned-HasReady) in
      (k', eq, s)

-- Kthreads_init does not halt and leaves a settled kernel with the idle thread as the only thread
-- on the list: there is an active thread, it runs, and no ready thread has a higher priority. It
-- needs lawful schedulers, none for SCHED_FIFO, memory for the descriptor and the stack,
-- descriptors and queues that no thread has used, init functions of the schedulers that leave
-- these as they are, and a free identifier.
pub kthreads_init-IsSettled :
    (e : Env)
    → IsLawful e
    → e.ksched 0 ≡ none
    → (inits : ℕ → Option (Kernel → Option Kernel)) (kernel_proc t stack : ℕ) (s : Procs)
      (given : ℕ × Ids)
    → t ≢ null
    → stack ≢ null
    → IsFresh s.kernel
    → ksched_init inits (kthread_ready_list_init s.kernel) ≡ some (kthread_ready_list_init s.kernel)
    → k_new_unique_id s.ids ≡ some given
    → (s' : Procs) × (kthreads_init e inits kernel_proc t stack s ≡ some s')
      × IsSettled s'.kernel
      × (s'.all_threads ≡ t ∷ [])
unfolding kthreads_init kthread_create ksched_thread_add clamp_prio kthread_ready_list_init
kthreads_init-IsSettled e law plain inits kernel_proc t stack s given nt ns f started ident =
    let a : (t == null) ≡ false = ground arith in
    let b : (stack == null) ≡ false = ground arith in
    let (k', eq, settled) = first_switch e law t given.0 s.kernel nt f in
    rw (started, a, b, ident, unjoined t (newborn t given.0 (bare s.kernel)) (f.joins t), plain, eq)
      (_, refl, settled, refl)
