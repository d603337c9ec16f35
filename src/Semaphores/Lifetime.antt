-- ===== src/Semaphores/Lifetime.antt =====
-- The calls that make and destroy semaphores, and calls with an invalid handle.
use diplomski_rad.Base.{
  ℕ, ◌≡◌, ◌≢◌, refl, ◌∙◌, ap, inr, true, false, ◌||◌, Option, none, some, [], ◌==◌, arith,
}
use diplomski_rad.Threads.Fields.{set_errno-queues}
use diplomski_rad.Base.Int.{ℤ, pos, neg}
use diplomski_rad.Errors.{success, e_invalid_handle, exit}
use diplomski_rad.Threads.{queue_of, null, update, set_errno, put_queue}
use diplomski_rad.Scheduler.{Env}
use diplomski_rad.Scheduler.Laws.{IsSettled, IsLawful}
use diplomski_rad.Scheduler.Blocking.{UndisturbedBut, set_errno-IsSettled, release_all}
use diplomski_rad.Semaphores.{Sems, sys__sem_init, sys__sem_destroy, sys__sem_post, sys__sem_wait}
use diplomski_rad.Semaphores.Spec.{Counting, counting}
use diplomski_rad.Semaphores.Refine.{Shows, IsHandle}

-- What a destroyed semaphore leaves behind.
pub record Destroyed (e : Env) (sem a : ℕ) (s s' : Sems) : Type 0 where
  pub settled : IsSettled s'.kernel
  pub empty : s'.kernel.queues (queue_of a) ≡ []
  pub gone : s'.sem_value a ≡ none
  pub cleared : s'.ptr sem ≡ null
  pub others : UndisturbedBut e a s.kernel s'.kernel
  pub values : (b : ℕ) → b ≢ a → s'.sem_value b ≡ s.sem_value b
  pub handles : (u : ℕ) → u ≢ sem → s'.ptr u ≡ s.ptr u

module _ (e : Env) (law : IsLawful e) (s : Sems) (sem a : ℕ) (i : IsHandle e s sem a)
    (settled : IsSettled s.kernel) where
  checked : ((sem == null) || (s.ptr sem == null)) ≡ false
  checked = ground (arith, i.given, i.leads, i.there)

  -- `sys__sem_destroy` does not halt and returns 0: no thread waits for the semaphore any longer, it
  -- is freed, its handle is cleared, the kernel is settled, and other semaphores are as they were.
  -- It needs lawful schedulers, a handle of a semaphore that is there, and a settled kernel.
  sys__sem_destroy-Destroyed :
      (c : Counting)
      → Shows s a c
      → (s' : Sems) × (sys__sem_destroy e sem s ≡ some (pos 0, s')) × Destroyed e sem a s s'
  unfolding sys__sem_destroy exit
  sys__sem_destroy-Destroyed c w =
      let (k', run, sw) = release_all e law a i.public s.kernel settled in
      let h = set_errno-IsSettled success k' sw.settled in
      (
        record s {
          kernel = set_errno success k';
          sem_value = update s.sem_value a none;
          ptr = update s.ptr sem null;
        },
        rw (checked, i.leads, w.value, run) refl,
        record {
          settled = h;
          empty = rw (set_errno-queues success k') sw.queue;
          gone = ground arith;
          cleared = ground arith;
          others =
              λ b ne o. ap (λ f. f (queue_of b)) (set_errno-queues success k') ∙ sw.others b ne o;
          values = λ b ne. ground arith;
          handles = λ u ne. ground arith;
        },
      )

-- What an invalid handle leads to.
abbrev pub Refused : Sems → Option (ℤ × Sems) → Type 0
Refused s r =
    r ≡ some (neg e_invalid_handle, record s { kernel = set_errno e_invalid_handle s.kernel })

-- With a null or cleared handle, destroy, post and wait return the error and change nothing but the
-- error number of the active thread.
invalid-Refused :
    (e : Env) (sem : ℕ) (s : Sems)
    → ((sem == null) || (s.ptr sem == null)) ≡ true
    → Refused s (sys__sem_destroy e sem s)
      × Refused s (sys__sem_post e sem s)
      × Refused s (sys__sem_wait e sem s)
unfolding sys__sem_destroy sys__sem_post sys__sem_wait exit
invalid-Refused e sem s h = (rw h refl, rw h refl, rw h refl)

-- `sys__sem_init` with a handle and memory returns 0: at the new address there is a semaphore with
-- the given value and no waiting thread, and the handle leads to it; the threads are left alone but
-- for the error number of the active one.
sys__sem_init-Shows :
    (fresh sem n : ℕ) (s : Sems)
    → sem ≢ null
    → fresh ≢ null
    → (s' : Sems) × (sys__sem_init fresh sem (pos n) s ≡ some (pos 0, s'))
      × Shows s' fresh (counting n [])
      × (s'.ptr sem ≡ fresh)
      × ((b : ℕ) → b ≢ fresh → s'.kernel.queues (queue_of b) ≡ s.kernel.queues (queue_of b))
unfolding sys__sem_init exit
sys__sem_init-Shows fresh sem n s ns nf =
    let a : (sem == null) ≡ false = ground arith in
    let b : (fresh == null) ≡ false = ground arith in
    let k = put_queue (queue_of fresh) [] s.kernel in
    (
      record s {
        kernel = set_errno success k;
        sem_value = update s.sem_value fresh (some (pos n));
        ptr = update s.ptr sem fresh;
      },
      rw (a, b) refl,
      record {
        value = ground arith;
        queue = rw (set_errno-queues success k) (ground arith);
        fair = inr refl;
      },
      ground arith,
      λ c ne. rw (set_errno-queues success k) (ground arith),
    )
