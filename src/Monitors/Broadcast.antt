-- ===== src/Monitors/Broadcast.antt =====
-- `sys__monitor_signal` and `sys__monitor_broadcast`: the loop of `k_monitor_release` ends, and the
-- threads that it releases are scheduled.
use diplomski_rad.Base.{
  ℕ, zero, suc, ◌+◌, ◌<◌, ◌≡◌, ◌≢◌, refl, ◌∙◌, ap, inl, inr, true, false, ◌||◌, Option, some, List,
  [], ◌∷◌, ◌==◌, if◌then◌else◌, arith, Bool-cases, eq_of_test, length,
}
use diplomski_rad.Base.Int.{pos}
use diplomski_rad.Base.Members.{first}
use diplomski_rad.Errors.{success}
use diplomski_rad.Threads.{Kernel, queue_of, null, kthreadq_get, set_errno}
use diplomski_rad.Threads.Links.{head_ne_null}
use diplomski_rad.Threads.Fields.{set_errno-IsLinked, set_errno-queues}
use diplomski_rad.Scheduler.{Env, kthreads_schedule}
use diplomski_rad.Scheduler.Laws.{IsSettled, IsLawful}
use diplomski_rad.Scheduler.Blocking.{set_errno-IsSettled}
use diplomski_rad.Scheduler.Schedule.{kthreads_schedule-IsSettled}
use diplomski_rad.Monitors.{
  Monitors, release_one, monitor_release_loop, k_monitor_release, sys__monitor_signal,
  sys__monitor_broadcast,
}
use diplomski_rad.Monitors.Spec.{Entrance, enter}
use diplomski_rad.Monitors.Refine.{Shows, IsHandle}
use diplomski_rad.Monitors.Going.{Known, IsGoing}
use diplomski_rad.Monitors.Release.{Round, release_one-Round}

-- The object at `a` is a monitor, locked exactly where it has an owner, and no thread waits to
-- enter it where it is free.
abbrev pub IsMonitor : Monitors → ℕ → Type 0
IsMonitor s a = (m : Entrance) × Shows s a m

Round-IsMonitor :
    (q r t a : ℕ) (l : List ℕ) (s s' : Monitors)
    → Round q r t a l s s'
    → (c : ℕ) → c ≢ q
    → IsMonitor s c
    → IsMonitor s' c
Round-IsMonitor q r t a l s s' w c ne (m, shown) = elim (Bool-cases (c == a)) [
  | inl e ↦ rw (eq_of_test c a e) (enter t m, w.enters m (rw (eq_of_test c a e) at shown))
  | inr e ↦ (
    m,
    record {
      kept = w.same c e ∙ shown.kept;
      queue = w.others c e (ground (arith, ne)) ∙ shown.queue;
      fair = shown.fair;
    },
  )
]

nothing_left :
    (q r : ℕ) (s : Monitors)
    → s.kernel.queues (queue_of q) ≡ []
    → release_one q r s ≡ some (null, r, s)
unfolding release_one kthreadq_get first
nothing_left q r s e = rw e refl

-- The loop of a broadcast ends with the queue empty.
broadcast_loop :
    (fuel q r : ℕ) (s : Monitors) (l : List ℕ)
    → IsGoing q r s
    → s.kernel.queues (queue_of q) ≡ l
    → length l < fuel
    → (r' : ℕ) × (s' : Monitors) × (monitor_release_loop fuel true q r s ≡ some (r', s'))
      × IsGoing q r' s'
      × (s'.kernel.queues (queue_of q) ≡ [])
      × ((c : ℕ) → c ≢ q → IsMonitor s c → IsMonitor s' c)
unfolding monitor_release_loop
broadcast_loop zero q r s l g e f = absurd (omega (arith, f))
broadcast_loop (suc fuel) q r s [] g e f = (r, s, rw (nothing_left q r s e) refl, g, e, λ c ne i. i)
broadcast_loop (suc fuel) q r s (t ∷ l) g e f =
    let n = head_ne_null (queue_of q) t l s.kernel g.linked e in
    let (r1, s1, one, w) = release_one-Round q r s t l g e in
    let (r', s', run, g', out, keeps) =
      broadcast_loop fuel q r1 s1 l w.going w.queue (omega (arith, f)) in
    (
      r',
      s',
      rw (one, n, run) refl,
      g',
      out,
      λ c ne i. keeps c ne (Round-IsMonitor q r1 t (s.kernel.threads t).qdata l s s1 w c ne i),
    )

-- The end of the call: the threads that have become ready are scheduled.
abbrev finish : Env → ℕ → Kernel → Option Kernel
finish e r k = if r == 0 then some k else kthreads_schedule e k

finish-IsSettled :
    (e : Env)
    → IsLawful e
    → (q r : ℕ) (s : Monitors) → IsGoing q r s
    → (k' : Kernel) × (finish e r (set_errno success s.kernel) ≡ some k')
      × IsSettled k'
      × ((c : ℕ) → e.is_private c ≡ false → k'.queues (queue_of c) ≡ s.kernel.queues (queue_of c))
finish-IsSettled e law q r s g = elim (Bool-cases (r == 0)) [
  | inl z ↦ rw z (
    set_errno success s.kernel,
    refl,
    set_errno-IsSettled success s.kernel (g.calm z),
    λ c o. ap (λ f. f (queue_of c)) (set_errno-queues success s.kernel),
  )
  | inr z ↦
      let (p, hp, full) = g.ready_one z in
      let (k', eq, s', u) =
        kthreads_schedule-IsSettled e law (set_errno success s.kernel)
          (set_errno-IsLinked success s.kernel g.linked)
          (inr (p, hp, rw (set_errno-queues success s.kernel) full)) in
      rw z (k', eq, s', λ c o. u c o ∙ ap (λ f. f (queue_of c)) (set_errno-queues success s.kernel))
]

module _ (e : Env) (law : IsLawful e) (s : Monitors) (queue q : ℕ) (i : IsHandle e s queue q)
    (there : s.kqueue q ≡ some tt) (settled : IsSettled s.kernel) (known : Known q s) where
  start : IsGoing q 0 s
  start = record {
    linked = settled.linked;
    running = settled.running;
    calm = λ z. settled;
    ready_one = λ z. absurd (cc z);
    known = known;
  }

  checked : ((queue == null) || (s.ptr queue == null)) ≡ false
  checked = ground (arith, i.given, i.leads, i.there)

  -- `sys__monitor_broadcast` ends, does not halt and returns 0: no thread waits in the monitor
  -- queue any longer, the kernel is settled, and every public monitor is still locked exactly where
  -- it has an owner, with no thread at its entrance where it is free. It needs lawful schedulers, a
  -- handle of a queue that is there, a settled kernel, and that every thread in the queue waits for
  -- a monitor that is there.
  pub sys__monitor_broadcast-empty :
      (s' : Monitors) × (sys__monitor_broadcast e queue s ≡ some (pos 0, s'))
      × IsSettled s'.kernel
      × (s'.kernel.queues (queue_of q) ≡ [])
      × ((c : ℕ) → c ≢ q → e.is_private c ≡ false → IsMonitor s c → IsMonitor s' c)
  unfolding sys__monitor_broadcast k_monitor_release
  sys__monitor_broadcast-empty =
      let (r, s1, run, g, out, keeps) =
        broadcast_loop (length (s.kernel.queues (queue_of q)) + 1) q 0 s
          (s.kernel.queues (queue_of q)) start refl (omega arith) in
      let (k', fin, settled', u) = finish-IsSettled e law q r s1 g in
      (
        record s1 { kernel = k' },
        rw (checked, i.leads, there, run, fin) refl,
        settled',
        u q i.public ∙ out,
        λ c ne o m.
            let (m', w) = keeps c ne m in
            (m', record { kept = w.kept; queue = u c o ∙ w.queue; fair = w.fair }),
      )

  -- `sys__monitor_signal` does not halt and returns 0; the first thread `t` of the monitor queue
  -- has left it and has entered its monitor as by the abstract entry: it owns the monitor if it was
  -- free, and otherwise waits behind the others at the entrance; the kernel is settled. It needs
  -- the same, a thread in the queue, and that its monitor is public.
  pub sys__monitor_signal-enter :
      (t : ℕ) (l : List ℕ) (m : Entrance)
      → s.kernel.queues (queue_of q) ≡ t ∷ l
      → Shows s (s.kernel.threads t).qdata m
      → e.is_private (s.kernel.threads t).qdata ≡ false
      → (s' : Monitors) × (sys__monitor_signal e queue s ≡ some (pos 0, s'))
        × IsSettled s'.kernel
        × (s'.kernel.queues (queue_of q) ≡ l)
        × Shows s' (s.kernel.threads t).qdata (enter t m)
  unfolding sys__monitor_signal k_monitor_release monitor_release_loop
  sys__monitor_signal-enter t l m full shown o =
      let n = head_ne_null (queue_of q) t l s.kernel settled.linked full in
      let (r, s1, one, w) = release_one-Round q 0 s t l start full in
      let (k', fin, settled', u) = finish-IsSettled e law q r s1 w.going in
      let more : length (s.kernel.queues (queue_of q)) + 1
          ≡ suc (length (s.kernel.queues (queue_of q))) =
        omega arith in
      let now = w.enters m shown in
      (
        record s1 { kernel = k' },
        rw (checked, i.leads, there, more, one, n, fin) refl,
        settled',
        u q i.public ∙ w.queue,
        record {
          kept = now.kept;
          queue = u (s.kernel.threads t).qdata o ∙ now.queue;
          fair = now.fair;
        },
      )
