-- ===== src/Devices/Refine.antt =====
-- `k_device_lock` and `k_device_unlock` are the operations of `Spec`.
use diplomski_rad.Base.{
  ℕ, ◌≡◌, ◌≢◌, refl, ◌∙◌, ap, inl, inr, Bool, true, false, some, List, [], ◌∷◌, arith,
}
use diplomski_rad.Base.Int.{pos, negsuc}
use diplomski_rad.Threads.{queue_of, kthreadq_release}
use diplomski_rad.Threads.Waiting.{kthreadq_release-cons, kthreadq_release-nil}
use diplomski_rad.Scheduler.{Env}
use diplomski_rad.Scheduler.Laws.{HasReady, IsSettled, IsLawful}
use diplomski_rad.Scheduler.Blocking.{UndisturbedBut, block_active, release_first}
use diplomski_rad.Devices.{Devs, Kdevice, put_device, k_device_lock, k_device_unlock}
use diplomski_rad.Devices.Spec.{Lock, lock, IsFair, acquire, release}

-- What the kernel keeps of the lock of the device at `a`.
pub record Shows (s : Devs) (a : ℕ) (d : Kdevice) (l : Lock) : Type 0 where
  pub there : s.kdevices a ≡ some d
  pub taken : d.locked ≡ l.taken
  pub queue : s.kernel.queues (queue_of a) ≡ l.waiting
  pub fair : IsFair l

-- Afterwards the kernel is settled, the device shows `l` and is as before otherwise, and so are the
-- other devices and queues.
pub record Done (e : Env) (a : ℕ) (d : Kdevice) (l : Lock) (s s' : Devs) : Type 0 where
  pub settled : IsSettled s'.kernel
  pub shows : Shows s' a (record d { locked = l.taken }) l
  pub others : UndisturbedBut e a s.kernel s'.kernel
  pub devices : (b : ℕ) → b ≢ a → s'.kdevices b ≡ s.kdevices b

relocked : (d : Kdevice) → d.locked ≡ true → d ≡ record d { locked = true }
relocked d locked = ap (λ b. record d { locked = b }) locked

module _ (e : Env) (law : IsLawful e) (a : ℕ) (public : e.is_private a ≡ false) (s : Devs)
    (settled : IsSettled s.kernel) (d : Kdevice) (l : Lock) (w : Shows s a d l) where
  lock_from :
      HasReady s.kernel
      → (taken : Bool) → l.taken ≡ taken
      → (s' : Devs) × (k_device_lock e a true s ≡ some (pos 0, s'))
        × Done e a d (acquire s.kernel.active_thread (lock taken l.waiting)) s s'
  unfolding k_device_lock
  lock_from ready false free = (
    put_device a (record d { locked = true }) s,
    rw (w.there, w.taken ∙ free) refl,
    record {
      settled = settled;
      shows = record { there = ground arith; taken = refl; queue = w.queue; fair = inl refl };
      others = λ b ne o. refl;
      devices = λ b ne. ground arith;
    },
  )
  lock_from ready true held =
      let (k1, k', enq, run, sw) = block_active e law a public s.kernel settled ready in
      (
        put_device a (record d { locked = true }) (record s { kernel = k' }),
        rw (w.there, w.taken ∙ held, enq, run) refl,
        record {
          settled = sw.settled;
          shows = record {
            there = ground arith;
            taken = refl;
            queue = sw.queue ∙ rw w.queue refl;
            fair = inl refl;
          };
          others = sw.others;
          devices = λ b ne. ground arith;
        },
      )

  unlock_from :
      (q : List ℕ)
      → l.waiting ≡ q
      → l.taken ≡ true
      → (s' : Devs) × (k_device_unlock e a s ≡ some (pos 0, s'))
        × Done e a d (release (lock true q)) s s'
  unfolding k_device_unlock
  unlock_from [] none_left held = (
    put_device a (record d { locked = false }) s,
    rw (w.there, kthreadq_release-nil (queue_of a) s.kernel settled.linked (w.queue ∙ none_left))
        refl,
    record {
      settled = settled;
      shows = record {
        there = ground arith;
        taken = refl;
        queue = w.queue ∙ none_left;
        fair = inr refl;
      };
      others = λ b ne o. refl;
      devices = λ b ne. ground arith;
    },
  )
  unlock_from (t ∷ q) some_left held =
      let full = w.queue ∙ some_left in
      let (k', run, sw) = release_first e law a public s.kernel t q settled full in
      let was : (kthreadq_release (queue_of a) s.kernel).0 ≡ true =
        ap (λ r. r.0) (kthreadq_release-cons (queue_of a) s.kernel settled.linked t q full) in
      (
        record s { kernel = k' },
        rw (w.there, was, run) refl,
        record {
          settled = sw.settled;
          shows = record {
            there = w.there ∙ ap some (relocked d (w.taken ∙ held));
            taken = refl;
            queue = sw.queue;
            fair = inl refl;
          };
          others = sw.others;
          devices = λ b ne. refl;
        },
      )

  -- k_device_lock with wait set, on a device that is there, does not halt, returns 0, and takes a
  -- device that is free, or puts the caller behind the threads that wait for it; the kernel is
  -- settled afterwards, and other devices and queues are as they were. It needs lawful
  -- schedulers, a settled kernel and a ready thread.
  pub k_device_lock-acquire :
      HasReady s.kernel
      → (s' : Devs) × (k_device_lock e a true s ≡ some (pos 0, s'))
        × Done e a d (acquire s.kernel.active_thread l) s s'
  k_device_lock-acquire ready = lock_from ready l.taken refl

  -- k_device_unlock of a locked device does not halt, returns 0, and gives the device to the
  -- thread that has waited longest, without freeing it, or frees it where no thread waits; the
  -- kernel is settled afterwards, and other devices and queues are as they were. It needs lawful
  -- schedulers and a settled kernel.
  pub k_device_unlock-release :
      l.taken ≡ true
      → (s' : Devs) × (k_device_unlock e a s ≡ some (pos 0, s')) × Done e a d (release l) s s'
  k_device_unlock-release held = unlock_from l.waiting refl held

  -- Locking without `wait` never blocks: a locked device is refused and left alone.
  pub k_device_lock-refused : l.taken ≡ true → k_device_lock e a false s ≡ some (negsuc 0, s)
  unfolding k_device_lock
  k_device_lock-refused held = rw (w.there, w.taken ∙ held) refl
