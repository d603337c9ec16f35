-- ===== src/Lifetimes/Collect.antt =====
-- The status of a thread that has exited, as a thread gets it that waits for it.
use diplomski_rad.Base.{
  ℕ, suc, ◌≡◌, refl, ap, ◌∙◌, ◌≢◌, inl, inr, true, false, Bool, some, ◌∷◌, ◌==◌, if◌then◌else◌,
  Bool-cases, eq_of_test, arith, ◌>>=◌,
}
use diplomski_rad.Base.Int.{ℤ, pos, negsuc, ◌+ℤ◌, ◌-ℤ◌, pos-dec}
use diplomski_rad.Base.Members.{has}
use diplomski_rad.Errors.{success}
use diplomski_rad.Identifiers.{Ids, k_free_unique_id}
use diplomski_rad.Threads.{Kernel, Thread, passive, same_state, null, set_errno}
use diplomski_rad.Scheduler.{Env}
use diplomski_rad.Lifetimes.{Procs, with_kernel, is_zero, kthread_remove_descriptor}
use diplomski_rad.Lifetimes.Calls.{thread_at, count_ref, collect, sys__wait_for_thread}
use diplomski_rad.Lifetimes.Exit.{Exited}

-- What a thread that waits sees of a descriptor.
pub record SameStatus (a b : Thread) : Type 0 where
  pub state : a.state ≡ b.state
  pub id : a.id ≡ b.id
  pub exit_status : a.exit_status ≡ b.exit_status
  pub ref_cnt : a.ref_cnt ≡ b.ref_cnt

set_errno-SameStatus : (n t : ℕ) (k : Kernel) → SameStatus ((set_errno n k).threads t) (k.threads t)
unfolding set_errno
set_errno-SameStatus n t k = elim (Bool-cases (t == k.active_thread)) [
  | inl e ↦
      rw (e, ← eq_of_test t k.active_thread e)
        (record { state = refl; id = refl; exit_status = refl; ref_cnt = refl })
  | inr e ↦ rw e (record { state = refl; id = refl; exit_status = refl; ref_cnt = refl })
]

-- The status is collected: one reference less, and without references the descriptor is freed.
pub record Collected (t n : ℕ) (r r' : Procs) : Type 0 where
  pub ref_cnt : (thread_at r' t).ref_cnt ≡ pos n
  pub freed : r'.freed ≡ (if n == 0 then t ∷ r.freed else r.freed)

pos-count : (n : ℕ) → pos (suc n) +ℤ negsuc 0 ≡ pos n
unfolding ◌+ℤ◌
pos-count n = ground arith

module _ (t n : ℕ) (r : Procs) (ids' : Ids) (counted : (thread_at r t).ref_cnt ≡ pos (suc n))
    (listed : has t r.all_threads ≡ true)
    (taken : k_free_unique_id (thread_at r t).id r.ids ≡ some ids') where
  abbrev r1 : Procs
  r1 = count_ref (negsuc 0) t (with_kernel r (set_errno success r.kernel))

  same_t : (t == t) ≡ true
  same_t = ground arith

  left : ((set_errno success r.kernel).threads t).ref_cnt +ℤ negsuc 0 ≡ pos n
  left =
      ap (λ c. c +ℤ negsuc 0) ((set_errno-SameStatus success t r.kernel).ref_cnt ∙ counted)
      ∙ pos-count n

  r1_count : (thread_at r1 t).ref_cnt ≡ pos n
  r1_count = rw same_t left

  r1_id : (thread_at r1 t).id ≡ (thread_at r t).id
  r1_id = rw same_t ((set_errno-SameStatus success t r.kernel).id)

  collect-Collected :
      (r' : Procs) × (collect t r ≡ some ((thread_at r t).exit_status, r')) × Collected t n r r'
  unfolding collect kthread_remove_descriptor
  collect-Collected = elim (Bool-cases (n == 0)) [
    | inl last ↦
        let z : is_zero (thread_at r1 t).ref_cnt ≡ true = ap is_zero r1_count ∙ last in
        let f : k_free_unique_id (thread_at r1 t).id r.ids ≡ some ids' =
          ap (λ i. k_free_unique_id i r.ids) r1_id ∙ taken in
        rw (z, f, listed, ◌>>=◌)
          (_, refl, record { ref_cnt = rw same_t left; freed = rw last refl })
    | inr more ↦
        let z : is_zero (thread_at r1 t).ref_cnt ≡ false = ap is_zero r1_count ∙ more in
        rw (z, ◌>>=◌) (r1, refl, record { ref_cnt = r1_count; freed = rw more refl })
  ]

-- After the exit of a thread with a status, as long as its descriptor keeps state, identifier,
-- status and references, sys__wait_for_thread with its identifier does not halt and returns that
-- status: one reference goes, and with the last one the descriptor is freed, where the descriptor
-- is on the list and its identifier can be freed.
pub sys__wait_for_thread-Collected :
    (e : Env) (t n : ℕ) (status : ℤ) (s s' r : Procs) (ids' : Ids) (ipc_wait : Bool)
    → Exited t status s s'
    → t ≢ null
    → (thread_at s t).ref_cnt ≡ pos (suc (suc n))
    → SameStatus (thread_at r t) (thread_at s' t)
    → has t r.all_threads ≡ true
    → k_free_unique_id (thread_at s t).id r.ids ≡ some ids'
    → (r' : Procs) × (sys__wait_for_thread e (some (t, (thread_at s t).id)) ipc_wait r
        ≡ some (status, r'))
      × Collected t n r r'
unfolding sys__wait_for_thread
sys__wait_for_thread-Collected e t n status s s' r ids' ipc_wait x nt counted same listed taken =
    let id : (thread_at r t).id ≡ (thread_at s t).id = same.id ∙ ap (λ th. th.id) x.kept in
    let state : (thread_at r t).state ≡ passive = same.state ∙ ap (λ th. th.state) x.kept in
    let known : ((thread_at r t).id == (thread_at s t).id) ≡ true = ground (arith, id) in
    let over : same_state (thread_at r t).state passive ≡ true =
      ap (λ st. same_state st passive) state in
    let value : (thread_at r t).exit_status ≡ status =
      same.exit_status ∙ ap (λ th. th.exit_status) x.kept in
    let ref : (thread_at r t).ref_cnt ≡ pos (suc n) =
      same.ref_cnt
      ∙ ap (λ th. th.ref_cnt) x.kept
      ∙ ap (λ c. c -ℤ pos 1) counted
      ∙ pos-dec (suc n) in
    let there : (t == null) ≡ false = ground arith in
    let (r', eq, c) =
      collect-Collected t n r ids' ref listed (ap (λ i. k_free_unique_id i r.ids) id ∙ taken) in
    (r', rw (there, known, over) (eq ∙ ap (λ v. some (v, r')) value), c)
