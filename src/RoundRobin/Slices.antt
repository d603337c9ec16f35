-- ===== src/RoundRobin/Slices.antt =====
-- The time slices of the round robin scheduler.
use diplomski_rad.Base.{
  ℕ, Bool, List, [], ◌∷◌, ◌++◌, if◌then◌else◌, ◌≡◌, sym, subst, Bool-cases, inl, inr,
}
use diplomski_rad.Base.Int.{ℤ, pos, leb_ℤ, ◌+ℤ◌, ◌<ℤ◌, ◌≤ℤ◌, int_laws}
use diplomski_rad.Clock.{time_cmp, time_sub}
use diplomski_rad.Clock.Order.{value, IsNormal, value-time_add}
use diplomski_rad.Threads.{
  Kernel, ThreadState, active, ready, wait, passive, ready_q, at_first, at_last,
  kthread_move_to_ready,
}
use diplomski_rad.Alarms.Due.{is_future}
use diplomski_rad.RoundRobin.{Rr, replenished, start_slice}

sum_above : (x y z : ℤ) → pos 0 ≤ℤ y → x <ℤ z → x <ℤ y +ℤ z
sum_above x y z nonneg less = omega (int_laws, nonneg, less)

-- A thread that starts has more than the threshold to run.
pub replenished_above :
    (t : ℕ) (s : Rr)
    → IsNormal (s.remainder t)
    → IsNormal s.threshold
    → pos 0 ≤ℤ value (s.remainder t)
    → value s.threshold <ℤ value s.time_slice
    → value s.threshold <ℤ value (replenished t s)
unfolding replenished
replenished_above t s normal normal' some_left longer =
    elim (Bool-cases (leb_ℤ (time_cmp (s.remainder t) s.threshold) (pos 0))) [
      | inl e ↦ rw e (
          subst (λ x. value s.threshold <ℤ x) (sym (value-time_add (s.remainder t) s.time_slice))
            (sum_above (value s.threshold) (value (s.remainder t)) (value s.time_slice) some_left
              longer))
      | inr e ↦ rw e (is_future (s.remainder t) s.threshold normal normal' e)
    ]

-- The state `s'` keeps what `start_slice` left in the parameters of the thread.
pub record IsStarted (t : ℕ) (s s' : Rr) : Type 0 where
  pub slice : s'.slice_end t ≡ (start_slice t s).slice_end t
  pub remainder : s'.remainder t ≡ (start_slice t s).remainder t

-- The state of a thread that has stopped, from the one before.
abbrev pub state_after : ThreadState → ThreadState
state_after active = ready
state_after ready = ready
state_after wait = wait
state_after passive = passive

-- The ready threads of its priority: one that may go on is put in front of them, or behind them
-- where the time that is left is not above the threshold.
abbrev pub queue_after : ThreadState → Bool → ℕ → List ℕ → List ℕ
queue_after active short t l = if short then l ++ t ∷ [] else t ∷ l
queue_after ready short t l = if short then l ++ t ∷ [] else t ∷ l
queue_after wait short t l = l
queue_after passive short t l = l

-- Whether what is left of the slice is not above the threshold.
abbrev pub is_short : ℕ → Rr → Bool
is_short t s = leb_ℤ (time_cmp (time_sub (s.slice_end t) s.alarms.now) s.threshold) (pos 0)

-- What becomes of the thread and of the ready threads of its priority.
pub record IsStopped (t : ℕ) (short : Bool) (k k' : Kernel) : Type 0 where
  pub state : (k'.threads t).state ≡ state_after (k.threads t).state
  pub queue :
      k'.queues (ready_q (k.threads t).prio)
      ≡ queue_after (k.threads t).state short t (k.queues (ready_q (k.threads t).prio))

abbrev put_ready : Bool → ℕ → Kernel → Kernel
put_ready short t k = kthread_move_to_ready t (if short then at_last else at_first) k
