-- ===== src/Scheduler/Retire.antt =====
-- The first half of a switch: the last active thread leaves.
use diplomski_rad.Base.{
  ℕ, ◌≡◌, refl, ap, ◌∙◌, subst, ◌≢◌, inl, inr, true, false, some, ◌==◌, Bool-cases, eq_of_test,
  ne_of_test,
}
use diplomski_rad.Base.Members.{is_empty-append}
use diplomski_rad.Threads.{
  ThreadState, active, ready, wait, passive, same_state, null, at_last, Kernel,
  kthread_move_to_ready,
}
use diplomski_rad.Threads.Links.{IsLinked, IsLinked-out, Sits-active}
use diplomski_rad.Threads.Ready.{
  moved-queue, moved-state, moved-active, moved-object, kthread_move_to_ready-IsLinked,
}
use diplomski_rad.Scheduler.{Env, retire}
use diplomski_rad.Scheduler.Laws.{
  HasReady, IsRunning, Undisturbed, IsRunnable, IsLeaving, IsLawful,
  ksched_deactivate_thread-IsLeaving,
}

pub same_state-active : (s : ThreadState) → same_state s active ≡ true → s ≡ active
same_state-active active h = refl
same_state-active ready h = cc
same_state-active wait h = cc
same_state-active passive h = cc

pub not_active : (s : ThreadState) → same_state s active ≡ false → s ≢ active
not_active s h e = cc (ap (λ r. same_state r active) e)

-- A thread that has just been made ready waits in its queue.
pub moved-HasReady :
    (t : ℕ) (k : Kernel) → IsLinked t k → t ≢ null → HasReady (kthread_move_to_ready t at_last k)
moved-HasReady t k h nt =
    ((k.threads t).prio, h.levels t, rw (moved-queue t k) (is_empty-append t _))

-- The active thread is not running, and another one is ready.
pub record IsVacant (k : Kernel) : Type 0 where
  pub linked : IsLinked null k
  pub idle : k.active_thread ≢ null → (k.threads k.active_thread).state ≢ active
  pub ready_one : HasReady k

-- The running thread has no queue to be in.
pub running-out : (k : Kernel) → IsLinked null k → IsRunning k → IsLinked k.active_thread k
running-out k h r =
    IsLinked-out k.active_thread k h r.0 (λ q s. Sits-active (k.threads k.active_thread) q s r.1)

pub other_ready : (k : Kernel) → IsRunnable k → ¬ IsRunning k → HasReady k
other_ready k (inl r) n = absurd (n r)
other_ready k (inr r) n = r

pub leaving_ready : (t : ℕ) (k : Kernel) → IsLeaving t k → (k.threads t).state ≢ active → HasReady k
leaving_ready t k v n =
    other_ready k v.runnable (λ r. n (subst (λ a. (k.threads a).state ≡ active) v.current r.1))

pub moved-IsVacant :
    (t : ℕ) (k : Kernel)
    → IsLeaving t k
    → t ≢ null
    → (k.threads t).state ≡ active
    → IsVacant (kthread_move_to_ready t at_last k)
moved-IsVacant t k v nt s =
    let out = IsLinked-out t k v.linked nt (λ q i. Sits-active (k.threads t) q i s) in
    record {
      linked = kthread_move_to_ready-IsLinked t k out nt at_last;
      idle = λ _ a.
          let at_t : ((kthread_move_to_ready t at_last k).threads t).state ≡ active =
            subst (λ b. ((kthread_move_to_ready t at_last k).threads b).state ≡ active)
              (moved-active t k ∙ v.current) a in
          cc (moved-state t k);
      ready_one = moved-HasReady t k out nt;
    }

pub retire-IsVacant :
    (e : Env) (k : Kernel)
    → IsLawful e
    → IsLinked null k
    → IsRunnable k
    → (k' : Kernel) × (retire e k ≡ some k') × IsVacant k' × Undisturbed e k k'
unfolding retire
retire-IsVacant e k law h r = elim (Bool-cases (k.active_thread == null)) [
  | inl n ↦ rw n (
    k,
    refl,
    record {
      linked = h;
      idle = λ ne. absurd (ne (eq_of_test _ _ n));
      ready_one = other_ready k r (λ w. w.0 (eq_of_test _ _ n));
    },
    λ a o. refl,
  )
  | inr n ↦
      let (k', eq, v, u) =
        ksched_deactivate_thread-IsLeaving e law k.active_thread k
          (record { linked = h; current = refl; runnable = r }) in
      rw (n, eq)
        (elim (Bool-cases (same_state (k'.threads k.active_thread).state active)) [
          | inl s ↦ rw s (
            kthread_move_to_ready k.active_thread at_last k',
            refl,
            moved-IsVacant k.active_thread k' v (ne_of_test _ _ n) (same_state-active _ s),
            λ a o. moved-object k.active_thread k' a ∙ u a o,
          )
          | inr s ↦ rw s (
            k',
            refl,
            record {
              linked = v.linked;
              idle = λ ne. rw v.current (not_active _ s);
              ready_one = leaving_ready k.active_thread k' v (not_active _ s);
            },
            u,
          )
        ])
]
