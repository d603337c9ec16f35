-- ===== src/Messages/Lifetime.antt =====
-- The call that makes a message queue, and calls with an invalid handle.
use diplomski_rad.Base.{
  ℕ, ◌<◌, ◌*◌, ◌≡◌, ◌≢◌, refl, Bool, true, false, ◌||◌, Option, some, [], ◌∷◌, ◌++◌, ◌==◌, arith,
  Bool-cases, inl, inr,
}
use diplomski_rad.Base.Int.{ℤ, pos, neg}
use diplomski_rad.Errors.{success, e_invalid_handle, exit}
use diplomski_rad.Threads.{Kernel, queue_of, null, update, set_errno, put_queue}
use diplomski_rad.Threads.Fields.{set_errno-queues}
use diplomski_rad.Scheduler.{Env}
use diplomski_rad.Identifiers.{Ids, ids, mask_words, wbits, is_taken, take_id, k_new_unique_id}
use diplomski_rad.Identifiers.Marks.{IsMasked}
use diplomski_rad.Identifiers.Fresh.{Outcome, given, beyond, k_new_unique_id-Outcome}
use diplomski_rad.Messages.{Message, Msgs, msg_queue, sys__create_msg_queue, msg_to_queue}
use diplomski_rad.Messages.Send.{sys__msg_post}
use diplomski_rad.Messages.Receive.{sys__msg_recv}
use diplomski_rad.Messages.Spec.{mailbox}
use diplomski_rad.Messages.Refine.{Shows}

-- A queue just made at `fresh`, under the handle `u`.
pub record Made (u fresh least : ℕ) (s s' : Msgs) : Type 0 where
  pub shows : Shows s' fresh least (mailbox [] [])
  pub leads : s'.handle u ≡ fresh
  pub same : s'.gid fresh ≡ s'.id u
  pub unused : is_taken s.ids.idmask (s'.id u) ≡ false
  pub listed : s'.kmsg_qs ≡ s.kmsg_qs ++ fresh ∷ []
  pub boxes : (c : ℕ) → c ≢ fresh → s'.msg_queues c ≡ s.msg_queues c

update_self : (f : ℕ → ℕ) (a v : ℕ) → update f a v a ≡ v
update_self f a v = ground arith

made :
    (u fresh least f : ℕ) (s : Msgs)
    → (u == null) ≡ false
    → (fresh == null) ≡ false
    → s.ids.last_id < f
    → f < mask_words * wbits
    → is_taken s.ids.idmask f ≡ false
    → (o : Option (ℕ × Ids)) → k_new_unique_id s.ids ≡ o
    → Outcome s.ids o
    → (s' : Msgs) × (sys__create_msg_queue fresh u least s ≡ some (pos 0, s'))
      × Made u fresh least s s'
unfolding sys__create_msg_queue exit
made u fresh least f s there room low high free o e (given id after bound unused taken) =
    let k = put_queue (queue_of fresh) [] s.kernel in
    (
      record s {
        kernel = set_errno success k;
        ids = ids (take_id s.ids.idmask id) id;
        msg_queues = update s.msg_queues fresh (some (msg_queue [] least));
        gid = update s.gid fresh id;
        kmsg_qs = s.kmsg_qs ++ fresh ∷ [];
        handle = update s.handle u fresh;
        id = update s.id u id;
      },
      rw (there, room, e) refl,
      record {
        shows = record {
          there = ground arith;
          queue = rw (set_errno-queues success k) (ground arith);
        };
        leads = ground arith;
        same = ground arith;
        unused = rw (update_self s.id u id) unused;
        listed = refl;
        boxes = λ c ne. ground (arith, ne);
      },
    )
made u fresh least f s there room low high free o e (beyond taken) = cc (taken f low high, free)

left_over : (a b c : Bool) → (a || b) ≡ false → (a || b || c) ≡ true → c ≡ true
left_over a b c h invalid = ground arith

-- With a place for the handle, memory, and an identifier left, the call makes an empty queue under an
-- identifier that was not in use.
pub sys__create_msg_queue-Made :
    (u fresh least f : ℕ) (s : Msgs)
    → u ≢ null
    → fresh ≢ null
    → IsMasked s.ids
    → s.ids.last_id < f
    → f < mask_words * wbits
    → is_taken s.ids.idmask f ≡ false
    → (s' : Msgs) × (sys__create_msg_queue fresh u least s ≡ some (pos 0, s'))
      × Made u fresh least s s'
sys__create_msg_queue-Made u fresh least f s there room masked low high free =
    made u fresh least f s (ground arith) (ground arith) low high free (k_new_unique_id s.ids) refl
      (k_new_unique_id-Outcome s.ids masked (omega (arith, low, high)))

-- What an invalid handle leads to.
abbrev pub Refused : Msgs → Option (ℤ × Msgs) → Type 0
Refused s r =
    r ≡ some (neg e_invalid_handle, record s { kernel = set_errno e_invalid_handle s.kernel })

-- Without a place to send to or receive from, or without a message, and with a handle that was
-- cleared, both calls return the error and change nothing but the error number of the active thread.
pub handle-Refused :
    (e : Env) (own : ℕ → ℕ) (create : ℕ → ℕ → Message → Kernel → ℕ × Kernel)
    (fresh u msg type size : ℕ) (ipc_wait : Bool) (s : Msgs)
    → ((u == null) || (msg == null) || (s.handle u == null)) ≡ true
    → Refused s (sys__msg_post e own create fresh msg_to_queue u msg s)
      × Refused s (sys__msg_recv e own msg_to_queue u msg type size ipc_wait s)
unfolding sys__msg_post sys__msg_recv exit
handle-Refused e own create fresh u msg type size ipc_wait s invalid =
    elim (Bool-cases ((u == null) || (msg == null))) [
      | inl h ↦ (rw h refl, rw h refl)
      | inr h ↦
          let cleared = left_over (u == null) (msg == null) (s.handle u == null) h invalid in
          (rw (h, cleared) refl, rw (h, cleared) refl)
    ]
