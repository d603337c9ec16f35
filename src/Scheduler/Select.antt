-- ===== src/Scheduler/Select.antt =====
-- The second half of a switch: the head of the highest ready queue becomes active.
use diplomski_rad.Base.{
  ℕ, ◌<◌, ◌≡◌, refl, ap, ◌∙◌, subst, ◌≢◌, inl, inr, true, false, Option, none, some, List, [], ◌∷◌,
  ◌==◌, Bool-cases, eq_of_test, ne_of_test, arith,
}
use diplomski_rad.Base.Members.{has, is_empty}
use diplomski_rad.Threads.{
  active, ready_q, prio_levels, rdy_masks, null, Kernel, put_thread, kthreadq_remove,
}
use diplomski_rad.Threads.Links.{IsLinked, head_ne_null}
use diplomski_rad.Threads.Moves.{relisted}
use diplomski_rad.Threads.Ready.{Leaves-first, leave_ready, shortened, shortened-relisted, unmarked}
use diplomski_rad.Scheduler.{Env, kthread_ready_list_highest, select, ksched_activate_thread}
use diplomski_rad.Bits.{MsbIndex}
use diplomski_rad.Scheduler.Highest.{IsTop, highest_below_lem}
use diplomski_rad.Scheduler.Laws.{
  HasReady, Undisturbed, IsSettled, IsLawful, ksched_activate_thread-IsSettled,
}
use diplomski_rad.Scheduler.Retire.{IsVacant}

-- A thread in no queue becomes the active one, where the last one is idle.
unfoldable pub promoted : ℕ → Kernel → Kernel
promoted t k =
    put_thread t (record (k.threads t) { state = active; queue = none })
      (record k { active_thread = t })

pub promoted-IsLinked :
    (t : ℕ) (k : Kernel)
    → IsLinked t k
    → t ≢ null
    → (k.active_thread ≢ null → (k.threads k.active_thread).state ≢ active)
    → IsLinked null (promoted t k)
unfolding promoted
promoted-IsLinked t k h nt idle = record {
  away = h.no_null;
  no_null = h.no_null;
  linked = λ q a na _. elim (Bool-cases (a == t)) [
    | inl e ↦ rw e ((λ i. absurd (cc (h.away q, eq_of_test a t e))), λ s. cc (s.0))
    | inr e ↦ rw e (h.linked q a na (ne_of_test a t e))
  ];
  once = h.once;
  levels = λ a. ground (arith, h.levels a, h.levels t);
  masks = h.masks;
  marks = h.marks;
  sole = λ a na _ s. elim (Bool-cases (a == t)) [
    | inl e ↦ eq_of_test a t e
    | inr e ↦
        let act : (k.threads a).state ≡ active = rw e at s in
        let same : a ≡ k.active_thread = h.sole a na (ne_of_test a t e) act in
        absurd (
          idle (subst (λ b. b ≢ null) same na) (subst (λ b. (k.threads b).state ≡ active) same act))
  ];
  seated = λ a na _ s. elim (Bool-cases (a == t)) [
    | inl e ↦ cc (rw e at s)
    | inr e ↦ rw e (h.seated a na (ne_of_test a t e) (rw e at s))
  ];
}

-- What the masks say of the ready queues, for the priority that the search has found.
abbrev pub HoldsTop : Kernel → ℕ → Type 0
HoldsTop k p =
    (p < prio_levels)
    × (is_empty (k.queues (ready_q p)) ≡ false)
    × ((r : ℕ) → p < r → r < prio_levels → is_empty (k.queues (ready_q r)) ≡ true)

pub top_queue :
    (k : Kernel) (r : Option ℕ)
    → IsLinked null k
    → HasReady k
    → IsTop k.rdy_mask rdy_masks r
    → (p : ℕ) × (r ≡ some p) × HoldsTop k p
top_queue k none h (p, hp, full) top = cc (top p hp, h.marks p hp, full)
top_queue k (some p) h ready_one (hp, set_bit, above) = (
  p,
  refl,
  (hp, ground (arith, h.marks p hp), λ r l hr. ground (arith, h.marks r hr, above r l hr)),
)

-- What `select` makes of the head `t` of the highest queue, before the hook.
pub select-promoted :
    (e : Env) (k : Kernel) (p t : ℕ) (l : List ℕ)
    → IsLinked null k
    → kthread_ready_list_highest e k ≡ some p
    → k.queues (ready_q p) ≡ t ∷ l
    → select e k ≡ ksched_activate_thread e t (promoted t (shortened p l k))
unfolding select kthreadq_remove promoted
select-promoted e k p t l h hp q =
    rw (hp, select, q, kthreadq_remove, head_ne_null (ready_q p) t l k h q)

module _ (k : Kernel) (v : IsVacant k) (p t : ℕ) (l : List ℕ) (top : HoldsTop k p)
    (q : k.queues (ready_q p) ≡ t ∷ l) where
  chosen : Kernel
  chosen = relisted (ready_q p) l (unmarked p l k.rdy_mask) k

  chosen-ne_null : t ≢ null
  chosen-ne_null = ne_of_test t null (head_ne_null (ready_q p) t l k v.linked q)

  chosen_there : has t (k.queues (ready_q p)) ≡ true
  unfolding has
  chosen_there = rw q (ground arith)

  chosen-IsLinked : IsLinked t chosen
  unfolding chosen
  chosen-IsLinked =
      leave_ready t p l k v.linked top.0 chosen_there chosen-ne_null
        (rw q (Leaves-first t l (rw q at (v.linked.once (ready_q p)))))

  chosen-prio : (k.threads t).prio ≡ p
  chosen-prio = ((v.linked.linked (ready_q p) t chosen-ne_null chosen-ne_null).0 chosen_there).1.1

  promoted-IsSettled : IsSettled (promoted t chosen)
  unfolding chosen promoted
  promoted-IsSettled = record {
    linked = promoted-IsLinked t chosen chosen-IsLinked chosen-ne_null v.idle;
    running = (chosen-ne_null, ground arith);
    top = λ r hr lt.
        let above : p < r = ground (arith, chosen-prio) in
        let other : (r == p) ≡ false = ground arith in rw other (top.2 r above hr);
  }

  no_null_left : has null l ≡ false
  unfolding has
  no_null_left =
      let n : has null (t ∷ l) ≡ false = rw q at (v.linked.no_null (ready_q p)) in ground arith

  promoted-chosen : promoted t (shortened p l k) ≡ promoted t chosen
  unfolding chosen
  promoted-chosen = ap (promoted t) (shortened-relisted p l k no_null_left)

module _ (e : Env) (law : IsLawful e) where
  pub select-IsSettled :
      (k : Kernel)
      → IsVacant k
      → (k' : Kernel) × (select e k ≡ some k') × IsSettled k' × Undisturbed e k k'
  unfolding kthread_ready_list_highest is_empty promoted chosen
  select-IsSettled k v =
      let (p, hp, top) =
        top_queue k _ v.linked v.ready_one
          (highest_below_lem e law.msb k.rdy_mask v.linked.masks) in
      go p hp top (k.queues (ready_q p)) refl
    where
      go :
          (p : ℕ)
          → kthread_ready_list_highest e k ≡ some p
          → HoldsTop k p
          → (l : List ℕ) → k.queues (ready_q p) ≡ l
          → (k' : Kernel) × (select e k ≡ some k') × IsSettled k' × Undisturbed e k k'
      go p hp top [] q = let z : is_empty [] ≡ false = rw q at top.1 in cc z
      go p hp top (t ∷ l) q =
          let (k', eq, s, u) =
            ksched_activate_thread-IsSettled e law t _ (promoted-IsSettled k v p t l top q) in
          (
            k',
            select-promoted e k p t l v.linked hp q
                ∙ ap (ksched_activate_thread e t) (promoted-chosen k v p t l top q)
                ∙ eq,
            s,
            u,
          )

abbrev pub FindsTop : Kernel → Option ℕ → Type 0
FindsTop k none = (p : ℕ) → p < prio_levels → is_empty (k.queues (ready_q p)) ≡ true
FindsTop k (some p) = HoldsTop k p

finds : (k : Kernel) (r : Option ℕ) → IsLinked null k → IsTop k.rdy_mask rdy_masks r → FindsTop k r
finds k none h top = λ p hp. ground (arith, h.marks p hp, top p hp)
finds k (some p) h (hp, set_bit, above) =
    (hp, ground (arith, h.marks p hp), λ r l hr. ground (arith, h.marks r hr, above r l hr))

-- In a kernel that keeps the invariant, `kthread_ready_list_highest` returns -1 where no thread is
-- ready, and otherwise the highest priority that has a ready thread; `msb_index` has to find the
-- highest set bit.
kthread_ready_list_highest-FindsTop :
    (e : Env)
    → MsbIndex e.msb_index
    → (k : Kernel) → IsLinked null k
    → FindsTop k (kthread_ready_list_highest e k)
unfolding kthread_ready_list_highest
kthread_ready_list_highest-FindsTop e msb k h =
    finds k _ h (highest_below_lem e msb k.rdy_mask h.masks)
