-- ===== src/Monitors/Lifetime.antt =====
-- The calls that make and destroy monitors and monitor queues.
use diplomski_rad.Base.{ℕ, ◌≡◌, ◌≢◌, refl, ◌∙◌, ap, false, ◌||◌, none, some, [], ◌==◌, arith}
use diplomski_rad.Base.Int.{pos}
use diplomski_rad.Errors.{success, exit}
use diplomski_rad.Threads.{queue_of, null, update, set_errno, put_queue}
use diplomski_rad.Threads.Fields.{set_errno-queues}
use diplomski_rad.Scheduler.{Env}
use diplomski_rad.Scheduler.Laws.{IsSettled, IsLawful}
use diplomski_rad.Scheduler.Blocking.{UndisturbedBut, set_errno-IsSettled, release_all}
use diplomski_rad.Monitors.{
  Monitors, Kmonitor, monitor_of, sys__monitor_init, sys__monitor_destroy,
  sys__monitor_queue_destroy,
}
use diplomski_rad.Monitors.Spec.{entrance}
use diplomski_rad.Monitors.Refine.{Shows, IsHandle}

-- What a destroyed monitor or queue at `a` leaves behind.
pub record Destroyed (e : Env) (handle a : ℕ) (s s' : Monitors) : Type 0 where
  pub settled : IsSettled s'.kernel
  pub empty : s'.kernel.queues (queue_of a) ≡ []
  pub cleared : s'.ptr handle ≡ null
  pub others : UndisturbedBut e a s.kernel s'.kernel
  pub monitors : (b : ℕ) → b ≢ a → s'.kmonitor b ≡ s.kmonitor b
  pub condition_queues : (b : ℕ) → b ≢ a → s'.kqueue b ≡ s.kqueue b
  pub handles : (u : ℕ) → u ≢ handle → s'.ptr u ≡ s.ptr u

module _ (e : Env) (law : IsLawful e) (s : Monitors) (handle a : ℕ) (i : IsHandle e s handle a)
    (settled : IsSettled s.kernel) where
  checked : ((handle == null) || (s.ptr handle == null)) ≡ false
  checked = ground (arith, i.given, i.leads, i.there)

  -- `sys__monitor_destroy` does not halt and returns 0: no thread waits at the entrance any longer,
  -- the monitor is freed, its handle is cleared, the kernel is settled, and all other objects are
  -- as they were. It needs lawful schedulers, a handle of a monitor that is there, and a settled
  -- kernel.
  sys__monitor_destroy-Destroyed :
      (m : Kmonitor)
      → s.kmonitor a ≡ some m
      → (s' : Monitors) × (sys__monitor_destroy e handle s ≡ some (pos 0, s'))
        × (s'.kmonitor a ≡ none)
        × Destroyed e handle a s s'
  unfolding sys__monitor_destroy exit
  sys__monitor_destroy-Destroyed m there =
      let (k', run, sw) = release_all e law a i.public s.kernel settled in
      (
        record s {
          kernel = set_errno success k';
          kmonitor = update s.kmonitor a none;
          ptr = update s.ptr handle null;
        },
        rw (checked, i.leads, there, run) refl,
        ground arith,
        record {
          settled = set_errno-IsSettled success k' sw.settled;
          empty = rw (set_errno-queues success k') sw.queue;
          cleared = ground arith;
          others =
              λ b ne o. ap (λ f. f (queue_of b)) (set_errno-queues success k') ∙ sw.others b ne o;
          monitors = λ b ne. ground arith;
          condition_queues = λ b ne. refl;
          handles = λ u ne. ground arith;
        },
      )

  -- `sys__monitor_queue_destroy` does not halt and returns 0: no thread waits in the queue any
  -- longer, the queue is freed, its handle is cleared, the kernel is settled, and all other objects
  -- are as they were. It needs lawful schedulers, a handle of a monitor queue that is there, and a
  -- settled kernel.
  pub sys__monitor_queue_destroy-Destroyed :
      s.kqueue a ≡ some tt
      → (s' : Monitors) × (sys__monitor_queue_destroy e handle s ≡ some (pos 0, s'))
        × (s'.kqueue a ≡ none)
        × Destroyed e handle a s s'
  unfolding sys__monitor_queue_destroy exit
  sys__monitor_queue_destroy-Destroyed there =
      let (k', run, sw) = release_all e law a i.public s.kernel settled in
      (
        record s {
          kernel = set_errno success k';
          kqueue = update s.kqueue a none;
          ptr = update s.ptr handle null;
        },
        rw (checked, i.leads, there, run) refl,
        ground arith,
        record {
          settled = set_errno-IsSettled success k' sw.settled;
          empty = rw (set_errno-queues success k') sw.queue;
          cleared = ground arith;
          others =
              λ b ne o. ap (λ f. f (queue_of b)) (set_errno-queues success k') ∙ sw.others b ne o;
          monitors = λ b ne. refl;
          condition_queues = λ b ne. ground arith;
          handles = λ u ne. ground arith;
        },
      )

-- `sys__monitor_init` with a handle and memory returns 0: at the new address there is a free
-- monitor with no thread at its entrance, the handle leads to it, and the queues of other objects
-- are left alone.
pub sys__monitor_init-Shows :
    (fresh monitor : ℕ) (s : Monitors)
    → monitor ≢ null
    → fresh ≢ null
    → (s' : Monitors) × (sys__monitor_init fresh monitor s ≡ some (pos 0, s'))
      × Shows s' fresh (entrance null [])
      × (s'.ptr monitor ≡ fresh)
      × ((b : ℕ) → b ≢ fresh → s'.kernel.queues (queue_of b) ≡ s.kernel.queues (queue_of b))
unfolding sys__monitor_init exit
sys__monitor_init-Shows fresh monitor s nm nf =
    let a : (monitor == null) ≡ false = ground arith in
    let b : (fresh == null) ≡ false = ground arith in
    let k = put_queue (queue_of fresh) [] s.kernel in
    (
      record s {
        kernel = set_errno success k;
        kmonitor = update s.kmonitor fresh (some (monitor_of false null));
        ptr = update s.ptr monitor fresh;
      },
      rw (a, b) refl,
      record {
        kept = ground arith;
        queue = rw (set_errno-queues success k) (ground arith);
        fair = λ z. refl;
      },
      ground arith,
      λ c ne. rw (set_errno-queues success k) (ground arith),
    )
