-- ===== src/Edf/Laws.antt =====
-- EDF keeps the contract of a secondary scheduler, and so `kthreads_schedule` with EDF leaves the
-- kernel settled.
use diplomski_rad.Base.{
  ℕ, zero, suc, List, fun_ext, ◌≡◌, refl, sym, ap, ◌∙◌, ◌≢◌, subst, inl, inr, true, false, not,
  ◌||◌, Bool, Option, none, some, is_some, ◌==◌, if◌then◌else◌, Bool-cases, ◌>>=◌,
}
use diplomski_rad.Base.Members.{is_empty_of_has}
use diplomski_rad.Threads.{
  rdy_masks, kthread_is_active, Kernel, at_last, kthread_move_to_ready, ThreadState, null, ready_q,
  queue_of, put_thread, kthreadq_remove, kthreadq_get, kthread_ready_list_set_empty,
}
use diplomski_rad.Threads.Links.{IsLinked}
use diplomski_rad.Threads.Unready.{seat}
use diplomski_rad.Scheduler.{
  Env, call_hook, highest_below, ksched_activate_thread, ksched_deactivate_thread,
  kthread_ready_list_highest, retire, select, kthreads_schedule, is_running, is_above,
}
use diplomski_rad.Scheduler.Laws.{HasReady, IsRunnable, IsSettled, IsLeaving, IsLawful, Undisturbed}
use diplomski_rad.Scheduler.Schedule.{kthreads_schedule-IsSettled}
use diplomski_rad.Edf.{
  Layout, Edf, kernel_of, with_kernel, k_edf_schedule, deactivate_hook, with_edf, sched_edf,
  deactivate, retire_edf, select_edf, schedule_edf,
}
use diplomski_rad.Edf.Schedule.{IsScheduled, k_edf_schedule-IsScheduled}

-- A ready thread waits in a ready queue.
pub ready-HasReady :
    (t : ℕ) (k : Kernel)
    → IsLinked null k
    → t ≢ null
    → (k.threads t).state ≡ ThreadState.ready
    → HasReady k
ready-HasReady t k h nt r = ((k.threads t).prio, h.levels t, is_empty_of_has t _ (seat t k h nt r))

module _ (e : Env) (o : Layout) (private : e.is_private o.ready ≡ true) where
  scheduled-IsLeaving :
      (s s' : Edf) (b : Bool) (t : ℕ)
      → IsScheduled o s b s'
      → IsLeaving t (kernel_of s)
      → IsLeaving t (kernel_of s') × Undisturbed e (kernel_of s) (kernel_of s')
  scheduled-IsLeaving s s' b t sch v = (
    record {
      linked = sch.linked;
      current = sch.current ∙ v.current;
      runnable = elim sch.changed [
        | inl (_, same) ↦ subst (λ r. IsRunnable (kernel_of r)) (sym same) v.runnable
        | inr (_, na, r) ↦ inr (ready-HasReady s'.active (kernel_of s') sch.linked na r)
      ];
    },
    λ a free. sch.objects a (λ eq. cc (ap (e.is_private) eq, private, free)),
  )

  -- EDF keeps the contract of a secondary scheduler: where the other entries of the table are
  -- lawful and EDF's ready queue is private, so is the table with EDF in it, for every state of
  -- EDF.
  pub with_edf-IsLawful : (s : Edf) → IsLawful e → IsLawful (with_edf e o s)
  unfolding with_edf deactivate_hook
  with_edf-IsLawful s law = record {
    msb = law.msb;
    activates = λ policy t k g. elim (Bool-cases (policy == sched_edf)) [
      | inl eq ↦ rw eq (k, refl, g, λ a f. refl)
      | inr ne ↦ rw ne (law.activates policy t k g)
    ];
    deactivates = λ policy t k v. elim (Bool-cases (policy == sched_edf)) [
      | inl eq ↦ rw eq (
          let (b, s', run, sch) = k_edf_schedule-IsScheduled o (with_kernel s k) v.linked in
          let r = scheduled-IsLeaving (with_kernel s k) s' b t sch v in
          (kernel_of s', rw (run, ◌>>=◌) refl, r.0, r.1))
      | inr ne ↦ rw ne (law.deactivates policy t k v)
    ];
  }

-- The kernel of what a call gives.
abbrev kernel_in : Option Edf → Option Kernel
kernel_in none = none
kernel_in (some s) = some (kernel_of s)

kernel_of_in :
    (m : Option Edf) (k : Kernel)
    → kernel_in m ≡ some k
    → (s : Edf) × (m ≡ some s) × (kernel_of s ≡ k)
kernel_of_in none k h = cc
kernel_of_in (some s) k h = (s, refl, cc)

abbrev passed : ℕ → Kernel → Kernel
passed t k = put_thread t (record (k.threads t) { activated = false }) k

after_edf :
    (t : ℕ) (m : Option (Bool × Edf))
    → kernel_in
        ((m >>= (λ done. some done.1)) >>= (λ s. some (with_kernel s (passed t (kernel_of s)))))
      ≡ ((m >>= (λ done. some (kernel_of done.1))) >>= (λ k. some (passed t k)))
after_edf t none = refl
after_edf t (some r) = refl

after_other :
    (t : ℕ) (s : Edf) (m : Option Kernel)
    → kernel_in (
        (m >>= (λ k. some (with_kernel s k)))
        >>= (λ s. some (with_kernel s (passed t (kernel_of s)))))
      ≡ (m >>= (λ k. some (passed t k)))
after_other t s none = refl
after_other t s (some r) = refl

abbrev retired : ℕ → Kernel → Kernel
retired t k = if kthread_is_active t k then kthread_move_to_ready t at_last k else k

after_retire :
    (t : ℕ) (m : Option Edf)
    → kernel_in (
        m >>= (λ s. some (
          if kthread_is_active t (kernel_of s)
          then with_kernel s (kthread_move_to_ready t at_last (kernel_of s))
          else s)))
      ≡ (kernel_in m >>= (λ k. some (retired t k)))
after_retire t none = refl
after_retire t (some s) = elim (Bool-cases (kthread_is_active t (kernel_of s))) [
  | inl on ↦ rw on refl
  | inr off ↦ rw off refl
]

-- `select`, from the priority that is found and the call that activates a thread.
abbrev select_by : Option ℕ → (ℕ → Kernel → Option Kernel) → Kernel → Option Kernel
select_by none activate k = none
select_by (some p) activate k =
    let (next, k') = kthreadq_remove (ready_q p) null k in
    if next == null
    then none
    else (let k'' =
          if kthreadq_get (ready_q p) k' == null then kthread_ready_list_set_empty p k' else k' in
        activate next (
          put_thread next (record (k''.threads next) { state = ThreadState.active; queue = none })
            (record k'' { active_thread = next })))

select_lem :
    (e : Env) (k : Kernel)
    → select e k ≡ select_by (kthread_ready_list_highest e k) (ksched_activate_thread e) k
unfolding select
select_lem e k = go (kthread_ready_list_highest e k) refl
  where
    go :
        (r : Option ℕ)
        → kthread_ready_list_highest e k ≡ r
        → select e k ≡ select_by r (ksched_activate_thread e) k
    go none eq = rw (select, eq) refl
    go (some p) eq = rw (select, eq) refl

in_branches :
    (halts switches : Bool) (m : Option Edf) (s : Edf)
    → kernel_in (if halts then none else if switches then m else some s)
      ≡ (if halts then none else if switches then kernel_in m else some (kernel_of s))
in_branches true switches m s = refl
in_branches false true m s = refl
in_branches false false m s = refl

module _ (e : Env) (o : Layout) where
  highest-plain :
      (n : ℕ) (masks : List ℕ) (s : Edf)
      → highest_below (with_edf e o s) n masks ≡ highest_below e n masks
  unfolding highest_below with_edf
  highest-plain zero masks s = refl
  highest-plain (suc n) masks s = rw (highest-plain n masks s)

  activate-same :
      (s s' : Edf) (t : ℕ) (k : Kernel)
      → ksched_activate_thread (with_edf e o s') t k ≡ ksched_activate_thread (with_edf e o s) t k
  unfolding ksched_activate_thread with_edf
  activate-same s s' t k = elim (Bool-cases ((k.threads t).sched_policy == sched_edf)) [
    | inl eq ↦ rw eq refl
    | inr ne ↦ rw ne refl
  ]

  -- To select a thread, the state of EDF does not matter.
  select-same : (s s' : Edf) (k : Kernel) → select (with_edf e o s') k ≡ select (with_edf e o s) k
  unfolding kthread_ready_list_highest
  select-same s s' k =
      select_lem (with_edf e o s') k
      ∙ ap (λ r. select_by r (ksched_activate_thread (with_edf e o s')) k)
          (highest-plain rdy_masks k.rdy_mask s' ∙ sym (highest-plain rdy_masks k.rdy_mask s))
      ∙ ap
          (λ (f : ℕ → Kernel → Option Kernel).
            select_by (kthread_ready_list_highest (with_edf e o s) k) f k)
          (fun_ext (λ t. fun_ext (λ m. activate-same s s' t m)))
      ∙ sym (select_lem (with_edf e o s) k)

  deactivate_lem :
      (t : ℕ) (s : Edf)
      → kernel_in (deactivate e o t s) ≡ ksched_deactivate_thread (with_edf e o s) t (kernel_of s)
  unfolding deactivate ksched_deactivate_thread with_edf deactivate_hook
  deactivate_lem t s = elim (Bool-cases ((kernel_of s).threads t).activated) [
    | inl on ↦ rw on (elim (Bool-cases (((kernel_of s).threads t).sched_policy == sched_edf)) [
      | inl eq ↦ rw eq (after_edf t (k_edf_schedule o s))
      | inr ne ↦ rw ne (
          after_other t s (
            call_hook (λ r. r.thread_deactivate) (e.ksched ((kernel_of s).threads t).sched_policy) t
              (kernel_of s)))
    ])
    | inr off ↦ rw off refl
  ]

  retire_edf_lem : (s : Edf) → kernel_in (retire_edf e o s) ≡ retire (with_edf e o s) (kernel_of s)
  unfolding retire_edf retire
  retire_edf_lem s = elim (Bool-cases ((kernel_of s).active_thread == null)) [
    | inl n ↦ rw n refl
    | inr n ↦
        let t = (kernel_of s).active_thread in
        rw n (
          after_retire t (deactivate e o t s)
          ∙ ap (λ m. m >>= (λ k. some (retired t k))) (deactivate_lem t s))
  ]

  switch_lem :
      (s : Edf)
      → kernel_in (retire_edf e o s >>= select_edf e o)
        ≡ (retire (with_edf e o s) (kernel_of s) >>= select (with_edf e o s))
  unfolding select_edf
  switch_lem s =
      after_select (retire_edf e o s) ∙ ap (λ m. m >>= select (with_edf e o s)) (retire_edf_lem s)
    where
      after_select :
          (m : Option Edf)
          → kernel_in (m >>= select_edf e o) ≡ (kernel_in m >>= select (with_edf e o s))
      after_select none = refl
      after_select (some r) =
          chosen (select (with_edf e o r) (kernel_of r)) ∙ select-same s r (kernel_of r)
        where
          chosen : (m : Option Kernel) → kernel_in (m >>= (λ k. some (with_kernel r k))) ≡ m
          chosen none = refl
          chosen (some k) = refl

  -- `schedule_edf` is `kthreads_schedule` with EDF in the table.
  schedule_edf_lem :
      (s : Edf) → kernel_in (schedule_edf e o s) ≡ kthreads_schedule (with_edf e o s) (kernel_of s)
  unfolding schedule_edf kthreads_schedule kthread_ready_list_highest
  schedule_edf_lem s = rw (highest-plain rdy_masks (kernel_of s).rdy_mask s) (
      let k = kernel_of s in
      let highest = highest_below e rdy_masks k.rdy_mask in
      let halts = not (is_running k || is_some highest) in
      let switches = not (is_running k) || is_above highest (k.threads k.active_thread).prio in
      in_branches halts switches (retire_edf e o s >>= select_edf e o) s
      ∙ ap (λ m. if halts then none else if switches then m else some k) (switch_lem s))

  -- With EDF in the table of the schedulers, whose other entries are lawful, and with EDF's ready
  -- queue private, kthreads_schedule does not halt from a kernel with a thread to return to, and
  -- leaves a settled kernel: the active thread runs, and no ready thread has a higher priority;
  -- the queues of objects that are not the schedulers' are left alone.
  pub schedule_edf-IsSettled :
      IsLawful e
      → e.is_private o.ready ≡ true
      → (s : Edf) → IsLinked null (kernel_of s)
      → IsRunnable (kernel_of s)
      → (s' : Edf) × (schedule_edf e o s ≡ some s')
        × IsSettled (kernel_of s')
        × Undisturbed e (kernel_of s) (kernel_of s')
  unfolding with_edf
  schedule_edf-IsSettled law private s h r =
      let (k, eq, g, u) =
        kthreads_schedule-IsSettled (with_edf e o s) (with_edf-IsLawful e o private s law)
          (kernel_of s) h r in
      let (s', run, same) = kernel_of_in (schedule_edf e o s) k (schedule_edf_lem s ∙ eq) in
      (s', run, subst IsSettled (sym same) g, λ a f. ap (λ m. m.queues (queue_of a)) same ∙ u a f)
