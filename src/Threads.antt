-- ===== src/Threads.antt =====
-- kernel/thread.c: threads, their queues and the priority scheduler, with the hooks of
-- kernel/sched.c that the scheduler calls. A descriptor is known by its address, a number other
-- than 0 (`NULL`), and a queue by its place; a queue's `list_t` is the list of the descriptors in
-- it. An operation returns the new kernel, or `none` where the kernel halts: an `ASSERT` fails, or
-- an array is read out of its bounds.
pub mod Masks
pub mod Links
pub mod Moves
pub mod Ready
pub mod Waiting
pub mod Fields
pub mod Unready
pub mod Initial
pub use diplomski_rad.Base.{update}
use Prim.Native.Nat.{bit_and, bit_or}
use diplomski_rad.Base.{
  ℕ, zero, suc, ◌+◌, ◌-◌, ◌*◌, ◌/◌, ◌%◌, ◌^◌, Bool, true, false, not, ◌&&◌, ◌||◌, Option, none,
  some, List, [], ◌∷◌, ◌++◌, ltb, leb, ◌==◌, if◌then◌else◌, get_or, set, replicate, length,
}
use diplomski_rad.Base.Int.{ℤ, pos, neg}
use diplomski_rad.Base.Members.{has, erase, first, is_empty, rest}

-- The `THR_STATE_` constants.
pub data ThreadState : Type 0 where
  active ready wait passive : ThreadState

abbrev pub same_state : ThreadState → ThreadState → Bool
same_state active active = true
same_state ready ready = true
same_state wait wait = true
same_state passive passive = true
same_state _ _ = false

-- Where a `kthread_q` stands: an element of `ready_q`, the `join_queue` of a descriptor, or the
-- queue in another kernel object, by the object's address.
pub data Place : Type 0 where
  ready_q : ℕ → Place
  join_queue : ℕ → Place
  queue_of : ℕ → Place

abbrev pub same_place : Place → Place → Bool
same_place (ready_q a) (ready_q b) = a == b
same_place (join_queue a) (join_queue b) = a == b
same_place (queue_of a) (queue_of b) = a == b
same_place _ _ = false

-- `kthread_t`, less its context, its stack and its private storage.
pub record Thread : Type 0 where
  pub id : ℕ
  pub state : ThreadState
  pub prio : ℕ
  pub sched_policy : ℕ
  pub activated : Bool
  pub queue : Option Place
  pub qdata : ℕ
  pub exit_status : ℤ
  pub errno : ℤ
  pub ref_cnt : ℤ

-- The static variables of kernel/thread.c, and the descriptors.
pub record Kernel : Type 0 where
  pub threads : ℕ → Thread
  pub queues : Place → List ℕ
  pub rdy_mask : List ℕ
  pub active_thread : ℕ

abbrev pub prio_levels : ℕ
prio_levels = 64

-- `sizeof (word_t)`, which the masks use as the number of levels in a word.
abbrev pub word_size : ℕ
word_size = 4

abbrev pub rdy_masks : ℕ
rdy_masks = (prio_levels + word_size - 1) / word_size

abbrev pub null : ℕ
null = 0

-- `FIRST` and `LAST`.
pub data End : Type 0 where
  at_first at_last : End

abbrev pub put_thread : ℕ → Thread → Kernel → Kernel
put_thread t v k = record k { threads = update k.threads t v }

abbrev pub put_queue : Place → List ℕ → Kernel → Kernel
put_queue q l k = record k { queues = λ p. if same_place p q then l else k.queues p }

-- The queue operations of kernel/thread.c.
unfoldable pub kthreadq_append : Place → ℕ → Kernel → Kernel
kthreadq_append q t k = put_queue q (k.queues q ++ t ∷ []) k

unfoldable pub kthreadq_prepend : Place → ℕ → Kernel → Kernel
kthreadq_prepend q t k = put_queue q (t ∷ k.queues q) k

-- The descriptor that was removed, or `NULL`.
unfoldable pub kthreadq_remove : Place → ℕ → Kernel → ℕ × Kernel
kthreadq_remove q t k =
    if t == null
    then elim (k.queues q) [ [] ↦ (null, k) | f ∷ r ↦ (f, put_queue q r k) ]
    else if has t (k.queues q)
    then (t, put_queue q (erase t (k.queues q)) k)
    else (null, k)

unfoldable pub kthreadq_get : Place → Kernel → ℕ
kthreadq_get q k = first (k.queues q)

-- The masks of the priorities that have a ready thread.
unfoldable pub kthread_ready_list_set_not_empty : ℕ → Kernel → Kernel
kthread_ready_list_set_not_empty index k =
    let i = index / word_size in
    let j = index % word_size in
    record k { rdy_mask = set k.rdy_mask i (bit_or (get_or k.rdy_mask i 0) (2 ^ j)) }

unfoldable pub kthread_ready_list_set_empty : ℕ → Kernel → Kernel
kthread_ready_list_set_empty index k =
    let i = index / word_size in
    let j = index % word_size in
    record k { rdy_mask = set k.rdy_mask i (bit_and (get_or k.rdy_mask i 0) (2 ^ 32 - 1 - 2 ^ j)) }

unfoldable pub kthread_ready_list_init : Kernel → Kernel
kthread_ready_list_init k = record k {
  queues = λ p. elim p [
    | ready_q i ↦ if ltb i prio_levels then [] else k.queues (ready_q i)
    | other ↦ k.queues other
  ];
  rdy_mask = replicate rdy_masks 0;
}

-- `SET_ERRNO (e)`.
unfoldable pub set_errno : ℕ → Kernel → Kernel
set_errno e k = put_thread k.active_thread (record (k.threads k.active_thread) { errno = neg e }) k

abbrev pub kthread_is_active : ℕ → Kernel → Bool
kthread_is_active t k = same_state (k.threads t).state active

abbrev pub kthread_is_ready : ℕ → Kernel → Bool
kthread_is_ready t k = same_state (k.threads t).state active || same_state (k.threads t).state ready

unfoldable pub kthread_move_to_ready : ℕ → End → Kernel → Kernel
kthread_move_to_ready t side k =
    let th = k.threads t in
    let q = ready_q th.prio in
    let k' = put_thread t (record th { state = ready; queue = some q }) k in
    kthread_ready_list_set_not_empty th.prio
      (elim side [ at_last ↦ kthreadq_append q t k' | at_first ↦ kthreadq_prepend q t k' ])

-- The descriptor, or `NULL` where it was not in its ready queue.
unfoldable pub kthread_remove_from_ready : ℕ → Kernel → ℕ × Kernel
kthread_remove_from_ready t k =
    if t == null
    then (null, k)
    else let th = k.threads t in
      let q = ready_q th.prio in
      let (r, k') = kthreadq_remove q t (put_thread t (record th { queue = some q }) k) in
      if r == t
      then (t, if kthreadq_get q k' == null then kthread_ready_list_set_empty th.prio k' else k')
      else (null, k')

-- `t` is `NULL` for the active thread.
unfoldable pub kthread_enqueue : ℕ → Place → Kernel → Option Kernel
kthread_enqueue t q k =
    let t' = if t == null then k.active_thread else t in
    if t' == null
    then none
    else some (
        kthreadq_append q t'
          (put_thread t' (record (k.threads t') { state = wait; queue = some q }) k))

-- Whether a thread was released.
unfoldable pub kthreadq_release : Place → Kernel → Bool × Kernel
kthreadq_release q k =
    let (t, k') = kthreadq_remove q null k in
    if t == null then (false, k') else (true, kthread_move_to_ready t at_last k')

-- The loop of `kthreadq_release_all`, with at most `fuel` rounds.
unfoldable pub release_loop : ℕ → Place → ℕ → Kernel → ℕ × Kernel
release_loop zero q cnt k = (cnt, k)
release_loop (suc fuel) q cnt k =
    let (more, k') = kthreadq_release q k in
    let again = release_loop fuel q (cnt + 1) k' in if more then again else (cnt, k')

-- A queue that is no ready queue is empty after as many rounds as it has threads.
unfoldable pub kthreadq_release_all : Place → Kernel → ℕ × Kernel
kthreadq_release_all q k = release_loop (length (k.queues q) + 1) q 0 k
