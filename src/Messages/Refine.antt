-- ===== src/Messages/Refine.antt =====
-- The parts of the system calls that send a message to a queue or wait for one are the operations
-- of `Spec`.
use diplomski_rad.Base.{
  ℕ, ◌≤◌, ◌≡◌, ◌≢◌, refl, ◌∙◌, ap, true, false, some, List, [], ◌∷◌, ◌++◌, leb, ◌==◌, arith,
  if◌then◌else◌, update,
}
use diplomski_rad.Base.Int.{pos, neg}
use diplomski_rad.Base.Members.{rest}
use diplomski_rad.Errors.{success, e_retry, exit}
use diplomski_rad.Threads.{queue_of, null, Kernel, set_errno, kthreadq_release}
use diplomski_rad.Threads.Fields.{set_errno-queues, set_errno-active}
use diplomski_rad.Threads.Waiting.{kthreadq_release-cons, kthreadq_release-nil}
use diplomski_rad.Scheduler.{Env, kthreads_schedule}
use diplomski_rad.Scheduler.Laws.{HasReady, IsSettled, IsLawful}
use diplomski_rad.Scheduler.Blocking.{
  Switched, UndisturbedBut, set_errno-IsSettled, block_active, release_first,
}
use diplomski_rad.Messages.{Message, msg_queue, Msgs, copy_bytes}
use diplomski_rad.Messages.Send.{send_to_queue}
use diplomski_rad.Messages.Receive.{wait_for_message}
use diplomski_rad.Messages.Spec.{Mailbox, mailbox, deliver, await}

-- What the kernel keeps of the queue at `a`, which takes messages of the type `least` and above.
pub record Shows (s : Msgs) (a least : ℕ) (b : Mailbox) : Type 0 where
  pub there : s.msg_queues a ≡ some (msg_queue b.inbox least)
  pub queue : s.kernel.queues (queue_of a) ≡ b.waiting

-- The user's `msg_q` at `u` leads to the queue at `a`, a global one and no object of the secondary
-- schedulers.
pub record IsHandle (e : Env) (s : Msgs) (u a : ℕ) : Type 0 where
  pub given : u ≢ null
  pub leads : s.handle u ≡ a
  pub there : a ≢ null
  pub same : s.gid a ≡ s.id u
  pub public : e.is_private a ≡ false

-- Afterwards the kernel is settled, the queue shows `b`, and the other queues are as they were.
pub record Done (e : Env) (a least : ℕ) (b : Mailbox) (s s' : Msgs) : Type 0 where
  pub settled : IsSettled s'.kernel
  pub shows : Shows s' a least b
  pub others : UndisturbedBut e a s.kernel s'.kernel
  pub boxes : (c : ℕ) → c ≢ a → s'.msg_queues c ≡ s.msg_queues c

-- A message as the kernel keeps it.
abbrev pub stored : Message → Message
stored m = record m { bytes = copy_bytes m.size m.bytes [] }

set_errno-Switched :
    (e : Env) (a n : ℕ) (l : List ℕ) (k k' : Kernel)
    → Switched e a l k k'
    → Switched e a l k (set_errno n k')
set_errno-Switched e a n l k k' sw = record {
  settled = set_errno-IsSettled n k' sw.settled;
  queue = ap (λ f. f (queue_of a)) (set_errno-queues n k') ∙ sw.queue;
  others = λ b ne o. ap (λ f. f (queue_of b)) (set_errno-queues n k') ∙ sw.others b ne o;
}

-- `if ( kthreadq_release (q) ) kthreads_schedule ();` with or without a thread in the queue.
release_any :
    (e : Env) (law : IsLawful e) (a : ℕ) (public : e.is_private a ≡ false) (k : Kernel)
    → IsSettled k
    → (l : List ℕ) → k.queues (queue_of a) ≡ l
    → let released = kthreadq_release (queue_of a) k in
      (k' : Kernel) × ((if released.0 then kthreads_schedule e released.1 else some released.1)
        ≡ some k')
      × Switched e a (rest l) k k'
unfolding rest
release_any e law a public k s [] q =
    rw (kthreadq_release-nil (queue_of a) k s.linked q)
      (k, refl, record { settled = s; queue = q; others = λ b ne o. refl })
release_any e law a public k s (t ∷ l) q =
    let (k', run, sw) = release_first e law a public k t l s q in
    let was : (kthreadq_release (queue_of a) k).0 ≡ true =
      ap (λ r. r.0) (kthreadq_release-cons (queue_of a) k s.linked t l q) in
    rw was (k', run, sw)

module _ (e : Env) (law : IsLawful e) (s : Msgs) (a : ℕ) (public : e.is_private a ≡ false)
    (settled : IsSettled s.kernel) (least : ℕ) (b : Mailbox) (w : Shows s a least b) where
  pub sent :
      (fresh : ℕ) (m : Message)
      → fresh ≢ null
      → least ≤ m.type
      → (s' : Msgs) × (send_to_queue e fresh a m s ≡ some (pos 0, s'))
        × Done e a least (deliver (stored m) b) s s'
  unfolding send_to_queue exit
  sent fresh m room high =
      let (k', run, sw) = release_any e law a public s.kernel settled b.waiting w.queue in
      let high_enough : leb least m.type ≡ true = ground (arith, high) in
      let there : (fresh == null) ≡ false = ground (arith, room) in
      let done = set_errno-Switched e a success (rest b.waiting) s.kernel k' sw in
      (
        record s {
          kernel = set_errno success k';
          msg_queues = update s.msg_queues a (some (msg_queue (b.inbox ++ stored m ∷ []) least));
        },
        rw (w.there, high_enough, there, run) refl,
        record {
          settled = done.settled;
          shows = record { there = ground arith; queue = done.queue };
          others = done.others;
          boxes = λ c ne. ground (arith, ne);
        },
      )

  pub waited :
      (me : ℕ)
      → s.kernel.active_thread ≡ me
      → HasReady s.kernel
      → (s' : Msgs) × (wait_for_message e a true s ≡ some (neg e_retry, s'))
        × Done e a least (await me b) s s'
  unfolding wait_for_message
  waited me am (p, hp, full) =
      let (k1, k', enq, run, sw) =
        block_active e law a public (set_errno e_retry s.kernel)
          (set_errno-IsSettled e_retry s.kernel settled)
          (p, hp, rw (set_errno-queues e_retry s.kernel) full) in
      (
        record s { kernel = k' },
        rw (enq, run) refl,
        record {
          settled = sw.settled;
          shows = record {
            there = w.there;
            queue =
                sw.queue
                ∙ rw
                    (
                      set_errno-queues e_retry s.kernel,
                      set_errno-active e_retry s.kernel,
                      w.queue,
                      am,
                    )
                    refl;
          };
          others = λ c ne o.
              sw.others c ne o ∙ ap (λ f. f (queue_of c)) (set_errno-queues e_retry s.kernel);
          boxes = λ c ne. refl;
        },
      )

  -- A change of the error number and of the queue at `a` alone.
  pub settled_at :
      (n : ℕ) (inbox : List Message) (s' : Msgs)
      → s'.kernel ≡ set_errno n s.kernel
      → s'.msg_queues a ≡ some (msg_queue inbox least)
      → ((c : ℕ) → c ≢ a → s'.msg_queues c ≡ s.msg_queues c)
      → Done e a least (mailbox inbox b.waiting) s s'
  settled_at n inbox s' same there boxes = record {
    settled = rw same (set_errno-IsSettled n s.kernel settled);
    shows = record { there = there; queue = rw (same, set_errno-queues n s.kernel) w.queue };
    others = λ c ne o. rw (same, set_errno-queues n s.kernel) refl;
    boxes = boxes;
  }
