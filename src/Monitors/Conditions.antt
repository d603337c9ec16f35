-- ===== src/Monitors/Conditions.antt =====
-- `sys__monitor_wait`: the owner leaves the monitor and waits in a monitor queue.
use diplomski_rad.Base.{
  ℕ, ◌≡◌, ◌≢◌, refl, ◌∙◌, ap, true, false, not, ◌||◌, Option, some, List, [], ◌∷◌, ◌++◌, ◌==◌,
  arith, ne_of_test,
}
use diplomski_rad.Base.Int.{ℤ, pos, neg}
use diplomski_rad.Base.Members.{first, rest, is_empty}
use diplomski_rad.Errors.{success, e_invalid_handle, e_not_owner, exit}
use diplomski_rad.Threads.{
  Kernel, queue_of, null, update, set_errno, kthreadq_get, kthreadq_release,
}
use diplomski_rad.Threads.Links.{IsLinked, head_ne_null}
use diplomski_rad.Threads.Fields.{set_errno-queues, set_errno-active, IsLinked-SameLinks}
use diplomski_rad.Scheduler.{Env}
use diplomski_rad.Scheduler.Laws.{HasReady, IsSettled, IsLawful}
use diplomski_rad.Scheduler.Blocking.{set_errno-IsSettled}
use diplomski_rad.Scheduler.Handing.{hand_over, UndisturbedBut₂}
use diplomski_rad.Monitors.{
  Monitors, Kmonitor, monitor_of, kthread_set_qdata, sys__monitor_lock, sys__monitor_unlock,
  sys__monitor_wait, sys__monitor_destroy, k_monitor_release, sys__monitor_signal,
  sys__monitor_broadcast,
}
use diplomski_rad.Monitors.Spec.{Entrance, leave}
use diplomski_rad.Monitors.Refine.{Shows, IsHandle}

-- `kthread_set_qdata` changes nothing that the scheduler reads.
set_qdata-IsSettled : (d : ℕ) (k : Kernel) → IsSettled k → IsSettled (kthread_set_qdata d k)
unfolding kthread_set_qdata
set_qdata-IsSettled d k s = record {
  linked =
      IsLinked-SameLinks k.active_thread _ k (record { state = refl; prio = refl; queue = refl })
        s.linked;
  running = (s.running.0, ground (arith, s.running));
  top = λ p hp l. s.top p hp (ground arith);
}

set_qdata-queues : (d : ℕ) (k : Kernel) → (kthread_set_qdata d k).queues ≡ k.queues
unfolding kthread_set_qdata
set_qdata-queues d k = refl

set_qdata-active : (d : ℕ) (k : Kernel) → (kthread_set_qdata d k).active_thread ≡ k.active_thread
unfolding kthread_set_qdata
set_qdata-active d k = refl

-- Afterwards the kernel is settled, the monitor at `a` shows `m`, the queue at `b` holds `l`, and
-- all other objects and handles are as they were.
pub record Waits (e : Env) (a b : ℕ) (m : Entrance) (l : List ℕ) (s s' : Monitors) : Type 0 where
  pub settled : IsSettled s'.kernel
  pub shows : Shows s' a m
  pub condition : s'.kernel.queues (queue_of b) ≡ l
  pub others : UndisturbedBut₂ e a b s.kernel s'.kernel
  pub monitors : (c : ℕ) → c ≢ a → s'.kmonitor c ≡ s.kmonitor c
  pub handles : (u : ℕ) → s'.ptr u ≡ s.ptr u

next_shows :
    {out : ℕ} (a : ℕ) (k : Kernel) (l : List ℕ)
    → IsLinked out k
    → k.queues (queue_of a) ≡ l
    → (not (is_empty l) ≡ not (first l == null)) × (first l ≡ 0 → rest l ≡ [])
unfolding first rest is_empty
next_shows a k [] h q = (refl, λ z. refl)
next_shows a k (t ∷ l) h q =
    let n = head_ne_null (queue_of a) t l k h q in (rw n refl, λ z. absurd (ne_of_test t null n z))

module _ (e : Env) (law : IsLawful e) (s : Monitors) (monitor queue a b : ℕ)
    (i : IsHandle e s monitor a) (j : IsHandle e s queue b) (apart : a ≢ b)
    (settled : IsSettled s.kernel) where
  checked_both :
      ((monitor == null) || (s.ptr monitor == null) || (queue == null) || (s.ptr queue == null))
      ≡ false
  checked_both = ground (arith, i.given, i.leads, i.there, j.given, j.leads, j.there)

  -- `sys__monitor_wait` by the owner does not halt and returns 0: the owner leaves the monitor as
  -- by an unlock, so the first thread at its entrance owns it or else it is free, and the caller is
  -- the last in the queue; the kernel is settled afterwards, and other objects are as they were. It
  -- needs lawful schedulers, handles of a monitor and of another object, a queue, that are there, a
  -- settled kernel, and a ready thread (the idle thread) to switch to.
  pub sys__monitor_wait-leave :
      (m : Entrance)
      → Shows s a m
      → m.owner ≡ s.kernel.active_thread
      → s.kqueue b ≡ some tt
      → HasReady s.kernel
      → (s' : Monitors) × (sys__monitor_wait e monitor queue s ≡ some (pos 0, s'))
        × Waits e a b (leave m) (s.kernel.queues (queue_of b) ++ s.kernel.active_thread ∷ []) s s'
  unfolding sys__monitor_wait kthreadq_get
  sys__monitor_wait-leave m w mine there (p, hp, full) =
      let k0 = set_errno success s.kernel in
      let k = kthread_set_qdata a k0 in
      let h = set_qdata-IsSettled a k0 (set_errno-IsSettled success s.kernel settled) in
      let same : k.queues ≡ s.kernel.queues =
        set_qdata-queues a k0 ∙ set_errno-queues success s.kernel in
      let me : k.active_thread ≡ s.kernel.active_thread =
        set_qdata-active a k0 ∙ set_errno-active success s.kernel in
      let own : (m.owner == s.kernel.active_thread) ≡ true = ground (arith, mine) in
      let locked : (m.owner == null) ≡ false = ground (arith, mine, settled.running.0) in
      let entry : k.queues (queue_of a) ≡ m.waiting = ap (λ f. f (queue_of a)) same ∙ w.queue in
      let (k1, k', enq, kept, run, out) =
        hand_over e law a b i.public j.public apart k h (p, hp, rw same full) in
      let next = next_shows a k m.waiting h.linked entry in
      let was : (kthreadq_release (queue_of a) k1).0 ≡ not (first m.waiting == null) =
        kept.1 ∙ ap (λ l. not (is_empty l)) entry ∙ next.0 in
      let head : first (k1.queues (queue_of a)) ≡ first m.waiting = ap first (kept.0 ∙ entry) in
      (
        record s {
          kernel = k';
          kmonitor =
              update s.kmonitor a
                (some (monitor_of (not (first m.waiting == null)) (first m.waiting)));
        },
        rw (checked_both, i.leads, j.leads, w.kept, own, there, enq, run, was, head, locked)
            (ground arith),
        record {
          settled = out.settled;
          shows = record { kept = ground arith; queue = out.left ∙ ap rest entry; fair = next.1 };
          condition = out.joined ∙ rw (same, me) refl;
          others = λ c na nb o. out.others c na nb o ∙ ap (λ f. f (queue_of c)) same;
          monitors = λ c ne. ground arith;
          handles = λ u. refl;
        },
      )

-- What a refused call leads to: its error, and no change but the error number of the active thread.
abbrev pub Refused : ℕ → Monitors → Option (ℤ × Monitors) → Type 0
Refused n s r = r ≡ some (neg n, record s { kernel = set_errno n s.kernel })

-- Unlock and wait by a thread that does not own the monitor are refused with the error for it; the
-- handles have to be valid.
not_owner-Refused :
    (e : Env) (monitor queue : ℕ) (s : Monitors) (m : Kmonitor)
    → ((monitor == null) || (s.ptr monitor == null) || (queue == null) || (s.ptr queue == null))
      ≡ false
    → s.kmonitor (s.ptr monitor) ≡ some m
    → m.owner ≢ s.kernel.active_thread
    → Refused e_not_owner s (sys__monitor_unlock e monitor s)
      × Refused e_not_owner s (sys__monitor_wait e monitor queue s)
unfolding sys__monitor_unlock sys__monitor_wait exit
not_owner-Refused e monitor queue s m given kept other =
    let not_mine : (m.owner == s.kernel.active_thread) ≡ false = ground (arith, other) in
    let one : ((monitor == null) || (s.ptr monitor == null)) ≡ false = ground (arith, given) in
    (rw (one, kept, not_mine) refl, rw (given, kept, not_mine) refl)

-- A null or cleared handle is refused by lock, unlock, wait, destroy, signal and broadcast.
handle-Refused :
    (e : Env) (monitor queue : ℕ) (s : Monitors)
    → ((monitor == null) || (s.ptr monitor == null)) ≡ true
    → Refused e_invalid_handle s (sys__monitor_lock e monitor s)
      × Refused e_invalid_handle s (sys__monitor_unlock e monitor s)
      × Refused e_invalid_handle s (sys__monitor_wait e monitor queue s)
      × Refused e_invalid_handle s (sys__monitor_destroy e monitor s)
      × Refused e_invalid_handle s (sys__monitor_signal e monitor s)
      × Refused e_invalid_handle s (sys__monitor_broadcast e monitor s)
unfolding sys__monitor_lock sys__monitor_unlock sys__monitor_wait sys__monitor_destroy
    sys__monitor_signal sys__monitor_broadcast k_monitor_release exit
handle-Refused e monitor queue s h =
    let both : ((monitor == null)
          || (s.ptr monitor == null)
          || (queue == null)
          || (s.ptr queue == null))
        ≡ true =
      ground (arith, h) in
    (rw h refl, rw h refl, rw both refl, rw h refl, rw h refl, rw h refl)
