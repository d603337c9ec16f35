-- ===== src/Lifetimes/Released.antt =====
-- What `kthreadq_release_all` does to the descriptors: those of the queue are ready, and no other is
-- touched.
use diplomski_rad.Base.{
  ℕ, zero, suc, ◌+◌, ◌<◌, ◌≡◌, refl, sym, ap, ◌∙◌, inl, inr, false, some, List, [], ◌∷◌, ◌==◌,
  if◌then◌else◌, Bool-cases, eq_of_test, arith, length,
}
use diplomski_rad.Base.Members.{has, IsOnce}
use diplomski_rad.Threads.{
  Kernel, Thread, ThreadState, ready_q, Place, null, release_loop, kthreadq_release_all,
  kthread_move_to_ready, kthreadq_append, kthread_ready_list_set_not_empty,
}
use diplomski_rad.Threads.Links.{IsLinked}
use diplomski_rad.Threads.Waiting.{
  IsWaiting, released, released-IsLinked, released-queue, kthreadq_release-nil,
  kthreadq_release-cons,
}

-- The descriptor of a thread that was made ready.
abbrev pub readied : Thread → Thread
readied th = record th { state = ThreadState.ready; queue = some (ready_q th.prio) }

abbrev pub made_ready : ℕ → Kernel → Thread
made_ready t k = readied (k.threads t)

released-threads :
    (t a : ℕ) (q : Place) (l : List ℕ) (k : Kernel)
    → (released t q l k).threads a ≡ (if a == t then made_ready t k else k.threads a)
unfolding kthread_move_to_ready kthreadq_append kthread_ready_list_set_not_empty
released-threads t a q l k = refl

release_loop-threads :
    (fuel : ℕ) (q : Place) (cnt : ℕ) (k : Kernel) (l : List ℕ)
    → IsWaiting q
    → IsLinked null k
    → k.queues q ≡ l
    → length l < fuel
    → (a : ℕ)
    → (release_loop fuel q cnt k).1.threads a ≡ (if has a l then made_ready a k else k.threads a)
unfolding release_loop has
release_loop-threads zero q cnt k l w h e f a = absurd (omega arith)
release_loop-threads (suc fuel) q cnt k [] w h e f a = rw (kthreadq_release-nil q k h e) refl
release_loop-threads (suc fuel) q cnt k (t ∷ l) w h e f a =
    let once : IsOnce (t ∷ l) = rw e at (h.once q) in
    let again =
      release_loop-threads fuel q (cnt + 1) (released t q l k) l w (released-IsLinked q k h t l w e)
        (released-queue t q l k w) (omega arith) a in
    rw (kthreadq_release-cons q k h t l e) (
      again ∙ elim (Bool-cases (a == t)) [
        | inl same ↦
            let out : has a l ≡ false = rw (eq_of_test a t same) once.0 in
            rw (out, same)
              (released-threads t a q l k
                ∙ rw same (ap (λ b. made_ready b k) (sym (eq_of_test a t same))))
        | inr other ↦
            let kept : (released t q l k).threads a ≡ k.threads a =
              released-threads t a q l k ∙ rw other refl in
            rw other (ap (λ th. if has a l then readied th else th) kept)
      ])

-- `kthreadq_release_all` makes the threads of its queue ready, and touches no other descriptor.
pub kthreadq_release_all-threads :
    (q : Place) (k : Kernel)
    → IsWaiting q
    → IsLinked null k
    → (a : ℕ)
    → (kthreadq_release_all q k).1.threads a
      ≡ (if has a (k.queues q) then made_ready a k else k.threads a)
unfolding kthreadq_release_all
kthreadq_release_all-threads q k w h a =
    release_loop-threads (length (k.queues q) + 1) q 0 k (k.queues q) w h refl (omega arith) a
