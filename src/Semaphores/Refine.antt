-- ===== src/Semaphores/Refine.antt =====
-- The system calls on a semaphore are the operations of `Spec`, for the queue and the value that
-- the kernel keeps.
use diplomski_rad.Base.{
  ℕ, zero, suc, ◌≡◌, ◌≢◌, refl, ◌∙◌, ap, inl, inr, true, false, ◌||◌, some, List, [], ◌∷◌, ◌==◌,
  arith,
}
use diplomski_rad.Threads.Fields.{set_errno-queues, set_errno-active}
use diplomski_rad.Base.Int.{pos, pos-inc, pos-dec, ◌+ℤ◌, ◌-ℤ◌, ltb_ℤ}
use diplomski_rad.Errors.{success}
use diplomski_rad.Threads.{queue_of, null, update, set_errno, kthreadq_release}
use diplomski_rad.Threads.Waiting.{kthreadq_release-cons, kthreadq_release-nil}
use diplomski_rad.Scheduler.{Env}
use diplomski_rad.Scheduler.Laws.{HasReady, IsSettled, IsLawful}
use diplomski_rad.Scheduler.Blocking.{
  UndisturbedBut, set_errno-IsSettled, block_active, release_first,
}
use diplomski_rad.Semaphores.{Sems, sys__sem_post, sys__sem_wait}
use diplomski_rad.Semaphores.Spec.{Counting, counting, IsFair, post, wait}

-- What the kernel keeps of the semaphore at `a`.
pub record Shows (s : Sems) (a : ℕ) (c : Counting) : Type 0 where
  pub value : s.sem_value a ≡ some (pos c.value)
  pub queue : s.kernel.queues (queue_of a) ≡ c.waiting
  pub fair : IsFair c

-- The user's handle leads to the semaphore, which is no object of the secondary schedulers.
pub record IsHandle (e : Env) (s : Sems) (sem a : ℕ) : Type 0 where
  pub given : sem ≢ null
  pub leads : s.ptr sem ≡ a
  pub there : a ≢ null
  pub public : e.is_private a ≡ false

-- The call returns 0; afterwards the kernel is settled, the semaphore shows `c`, and all other
-- semaphores and handles are as they were.
pub record Done (e : Env) (a : ℕ) (c : Counting) (s s' : Sems) : Type 0 where
  pub settled : IsSettled s'.kernel
  pub shows : Shows s' a c
  pub others : UndisturbedBut e a s.kernel s'.kernel
  pub values : (b : ℕ) → b ≢ a → s'.sem_value b ≡ s.sem_value b
  pub handles : (u : ℕ) → s'.ptr u ≡ s.ptr u

module _ (e : Env) (law : IsLawful e) (s : Sems) (sem a : ℕ) (i : IsHandle e s sem a)
    (settled : IsSettled s.kernel) where
  checked : ((sem == null) || (s.ptr sem == null)) ≡ false
  checked = ground (arith, i.given, i.leads, i.there)

  post_from :
      (c : Counting)
      → Shows s a c
      → (q : List ℕ) → c.waiting ≡ q
      → (s' : Sems) × (sys__sem_post e sem s ≡ some (pos 0, s'))
        × Done e a (post (counting c.value q)) s s'
  unfolding sys__sem_post
  post_from c w [] eq =
      let h = set_errno-IsSettled success s.kernel settled in
      let q : (set_errno success s.kernel).queues (queue_of a) ≡ [] =
        rw (set_errno-queues success s.kernel) (w.queue ∙ eq) in
      (
        record s {
          kernel = set_errno success s.kernel;
          sem_value = update s.sem_value a (some (pos c.value +ℤ pos 1));
        },
        rw (checked, i.leads, kthreadq_release-nil (queue_of a) _ h.linked q, w.value) refl,
        record {
          settled = h;
          shows = record { value = ground (arith, pos-inc c.value); queue = q; fair = inr refl };
          others = λ b ne o. ap (λ f. f (queue_of b)) (set_errno-queues success s.kernel);
          values = λ b ne. ground arith;
          handles = λ u. refl;
        },
      )
  post_from c w (t ∷ q) eq =
      let h = set_errno-IsSettled success s.kernel settled in
      let full : (set_errno success s.kernel).queues (queue_of a) ≡ t ∷ q =
        rw (set_errno-queues success s.kernel) (w.queue ∙ eq) in
      let (k', run, sw) = release_first e law a i.public (set_errno success s.kernel) t q h full in
      let was : (kthreadq_release (queue_of a) (set_errno success s.kernel)).0 ≡ true =
        ap (λ r. r.0) (kthreadq_release-cons (queue_of a) _ h.linked t q full) in
      (
        record s { kernel = k' },
        rw (checked, i.leads, w.value, was, run) refl,
        record {
          settled = sw.settled;
          shows = record {
            value = w.value;
            queue = sw.queue;
            fair = elim w.fair [ inl z ↦ inl z | inr n ↦ cc n ];
          };
          others = λ b ne o.
              sw.others b ne o ∙ ap (λ f. f (queue_of b)) (set_errno-queues success s.kernel);
          values = λ b ne. refl;
          handles = λ u. refl;
        },
      )

  wait_from :
      (c : Counting)
      → Shows s a c
      → HasReady s.kernel
      → (n : ℕ) → c.value ≡ n
      → (s' : Sems) × (sys__sem_wait e sem s ≡ some (pos 0, s'))
        × Done e a (wait s.kernel.active_thread (counting n c.waiting)) s s'
  unfolding sys__sem_wait
  wait_from c w r (suc n) eq =
      let up : ltb_ℤ (pos 0) (pos (suc n)) ≡ true = ground arith in
      (
        record s {
          kernel = set_errno success s.kernel;
          sem_value = update s.sem_value a (some (pos (suc n) -ℤ pos 1));
        },
        rw (checked, i.leads, w.value, eq, up) refl,
        record {
          settled = set_errno-IsSettled success s.kernel settled;
          shows = record {
            value = ground (arith, pos-dec n);
            queue = rw (set_errno-queues success s.kernel) w.queue;
            fair = elim w.fair [ inl z ↦ absurd (omega arith) | inr f ↦ inr f ];
          };
          others = λ b ne o. ap (λ f. f (queue_of b)) (set_errno-queues success s.kernel);
          values = λ b ne. ground arith;
          handles = λ u. refl;
        },
      )
  wait_from c w (p, hp, full) zero eq =
      let h = set_errno-IsSettled success s.kernel settled in
      let (k1, k', enq, run, sw) =
        block_active e law a i.public (set_errno success s.kernel) h
          (p, hp, rw (set_errno-queues success s.kernel) full) in
      (
        record s { kernel = k' },
        rw (checked, i.leads, w.value, eq, enq, run) refl,
        record {
          settled = sw.settled;
          shows = record {
            value = w.value ∙ ap (λ m. some (pos m)) eq;
            queue =
                sw.queue
                ∙ rw (set_errno-queues success s.kernel, set_errno-active success s.kernel, w.queue)
                    refl;
            fair = inl refl;
          };
          others = λ b ne o.
              sw.others b ne o ∙ ap (λ f. f (queue_of b)) (set_errno-queues success s.kernel);
          values = λ b ne. refl;
          handles = λ u. refl;
        },
      )

  -- `sys__sem_post` does not halt, returns 0, and carries out the abstract post: the first waiting
  -- thread is released, or else the value goes up by 1; the kernel is settled afterwards, and other
  -- semaphores are as they were. It needs lawful schedulers, a handle of a semaphore that is there,
  -- and a settled kernel.
  pub sys__sem_post-post :
      (c : Counting)
      → Shows s a c
      → (s' : Sems) × (sys__sem_post e sem s ≡ some (pos 0, s')) × Done e a (post c) s s'
  sys__sem_post-post c w = post_from c w c.waiting refl

  -- `sys__sem_wait` does not halt, returns 0, and carries out the abstract wait: the value goes
  -- down by 1, or the caller waits behind the other threads; the kernel is settled afterwards, and
  -- other semaphores are as they were. It needs lawful schedulers, a handle of a semaphore that is
  -- there, a settled kernel, and a ready thread (the idle thread) to switch to.
  pub sys__sem_wait-wait :
      (c : Counting)
      → Shows s a c
      → HasReady s.kernel
      → (s' : Sems) × (sys__sem_wait e sem s ≡ some (pos 0, s'))
        × Done e a (wait s.kernel.active_thread c) s s'
  sys__sem_wait-wait c w r = wait_from c w r c.value refl
