-- ===== src/Threads/Unready.antt =====
-- `kthread_remove_from_ready`: a ready thread leaves the queue of its priority.
use diplomski_rad.Base.{
  ℕ, ◌≡◌, refl, sym, ◌∙◌, ◌≢◌, inl, inr, true, false, some, ◌==◌, Bool-cases, arith,
}
use diplomski_rad.Base.Members.{has, first, erase, has-erase_ne}
use diplomski_rad.Threads.{
  Kernel, ThreadState, ready_q, queue_of, null, put_thread, kthreadq_remove, kthreadq_get,
  kthread_ready_list_set_empty, kthread_remove_from_ready,
}
use diplomski_rad.Threads.Links.{IsLinked, same_place_self}
use diplomski_rad.Threads.Fields.{IsLinked-SameLinks}
use diplomski_rad.Threads.Ready.{Leaves-erase, shortened, shortened-relisted, leave_ready}

-- The kernel where `t` has left its ready queue, which has the list `l` then.
abbrev pub unready : ℕ → Kernel → Kernel
unready t k =
    let p = (k.threads t).prio in
    shortened p (erase t (k.queues (ready_q p)))
      (put_thread t (record (k.threads t) { queue = some (ready_q p) }) k)

pub unready_lem :
    (t : ℕ) (k : Kernel)
    → t ≢ null
    → has t (k.queues (ready_q (k.threads t).prio)) ≡ true
    → (kthread_remove_from_ready t k).1 ≡ unready t k
unfolding kthread_remove_from_ready kthreadq_remove
unready_lem t k nt there =
    let n : (t == null) ≡ false = ground arith in
    let s : (t == t) ≡ true = ground arith in rw (n, there, s) refl

module _ (t : ℕ) (k : Kernel) (h : IsLinked null k) (nt : t ≢ null) where
  module _ (s : (k.threads t).state ≡ ThreadState.ready) where
    pub seat : has t (k.queues (ready_q (k.threads t).prio)) ≡ true
    seat = (h.linked (ready_q (k.threads t).prio) t nt nt).1 (h.seated t nt nt s, (s, refl))

    named-IsLinked :
        IsLinked null
          (put_thread t (record (k.threads t) { queue = some (ready_q (k.threads t).prio) }) k)
    named-IsLinked =
        IsLinked-SameLinks t _ k
          (record { state = refl; prio = refl; queue = sym (h.seated t nt nt s) }) h

    pub unready-IsLinked : IsLinked t (unready t k)
    unready-IsLinked =
        let p = (k.threads t).prio in
        let l = erase t (k.queues (ready_q p)) in
        rw
          (shortened-relisted p l
            (put_thread t (record (k.threads t) { queue = some (ready_q p) }) k)
            (has-erase_ne null t (k.queues (ready_q p)) (ground arith) ∙ h.no_null (ready_q p)))
          (leave_ready t p l _ named-IsLinked (h.levels t) seat nt
            (Leaves-erase t _ (h.once (ready_q p))))

-- What a thread's leaving its ready queue leaves alone.
pub unready-same :
    (t : ℕ) (k : Kernel)
    → ((unready t k).active_thread ≡ k.active_thread)
      × ((b : ℕ) → (unready t k).queues (queue_of b) ≡ k.queues (queue_of b))
unfolding kthreadq_get kthread_ready_list_set_empty
unready-same t k =
    let p = (k.threads t).prio in
    rw (same_place_self (ready_q p))
      (elim (Bool-cases (first (erase t (k.queues (ready_q p))) == null)) [
        | inl e ↦ rw e (refl, λ b. refl)
        | inr e ↦ rw e (refl, λ b. refl)
      ])
