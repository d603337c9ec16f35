-- ===== src/Threads/Initial.antt =====
-- kernel/thread.c, `kthread_ready_list_init`: the invariant at the start of the kernel.
use diplomski_rad.Base.{
  ℕ, zero, suc, ◌<◌, ◌/◌, ◌%◌, ◌≡◌, refl, inl, inr, true, false, [], arith, Bool-cases, ltb, get_or,
  replicate,
}
use diplomski_rad.Base.Members.{has, is_empty}
use diplomski_rad.Threads.{
  passive, Place, ready_q, join_queue, queue_of, Kernel, prio_levels, rdy_masks, word_size, null,
  kthread_ready_list_init,
}
use diplomski_rad.Threads.Masks.{bit}
use diplomski_rad.Threads.Links.{IsLinked, Sits}

get_or-replicate : (n i : ℕ) → get_or {A = ℕ} (replicate n 0) i 0 ≡ 0
get_or-replicate zero i = refl
get_or-replicate (suc n) zero = refl
get_or-replicate (suc n) (suc i) = get_or-replicate n i

bit_zero : (j : ℕ) → bit 0 j ≡ false
bit_zero j = ground arith

-- Before any thread is there: all descriptors are passive, and no queue but those of `ready_q`
-- holds anything.
pub record IsFresh (k : Kernel) : Type 0 where
  pub passive : (t : ℕ) → (k.threads t).state ≡ passive
  pub levels : (t : ℕ) → (k.threads t).prio < prio_levels
  pub beyond : (i : ℕ) → ltb i prio_levels ≡ false → k.queues (ready_q i) ≡ []
  pub joins : (d : ℕ) → k.queues (join_queue d) ≡ []
  pub objects : (a : ℕ) → k.queues (queue_of a) ≡ []

module _ (k : Kernel) (f : IsFresh k) where
  empty_after : (q : Place) → (kthread_ready_list_init k).queues q ≡ []
  unfolding kthread_ready_list_init
  empty_after (ready_q i) = elim (Bool-cases (ltb i prio_levels)) [
    | inl e ↦ rw e refl
    | inr e ↦ rw e (f.beyond i e)
  ]
  empty_after (join_queue d) = f.joins d
  empty_after (queue_of a) = f.objects a

  no_queue : (t : ℕ) (q : Place) → ¬ Sits (k.threads t) q
  no_queue t (ready_q p) s = cc (s.0, f.passive t)
  no_queue t (join_queue d) s = cc (s, f.passive t)
  no_queue t (queue_of a) s = cc (s, f.passive t)

  -- `kthread_ready_list_init` establishes the invariant in a kernel without threads.
  pub kthread_ready_list_init-IsLinked : IsLinked null (kthread_ready_list_init k)
  unfolding has is_empty
  kthread_ready_list_init-IsLinked = record {
    away = λ q. rw (empty_after q) refl;
    no_null = λ q. rw (empty_after q) refl;
    linked = λ q t na _. (
      (λ i. let e : has t [] ≡ true = rw (empty_after q) at i in cc e),
      λ s. absurd (no_queue t q (unfold kthread_ready_list_init in s.1)),
    );
    once = λ q. rw (empty_after q) tt;
    levels = unfold kthread_ready_list_init in f.levels;
    masks =
        unfold kthread_ready_list_init in
        record { size = refl; small = λ i. rw (get_or-replicate rdy_masks i) (omega arith) };
    marks = λ p hp. rw (empty_after (ready_q p)) (
        unfold kthread_ready_list_init in
        rw (get_or-replicate rdy_masks (p / word_size)) (bit_zero (p % word_size)));
    sole = unfold kthread_ready_list_init in λ t na _ s. cc (s, f.passive t);
    seated = unfold kthread_ready_list_init in λ t na _ s. cc (s, f.passive t);
  }
