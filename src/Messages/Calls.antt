-- ===== src/Messages/Calls.antt =====
-- The system calls on a global message queue are the operations of `Spec`.
use diplomski_rad.Base.{
  ℕ, ◌+◌, ◌≤◌, ◌≡◌, ◌≢◌, refl, sym, subst, ◌∙◌, ap, inl, inr, Bool, true, false, not, ◌&&◌, ◌||◌,
  Option, none, some, List, [], ◌∷◌, ltb, ◌==◌, arith, update, Bool-cases, ◌<◌,
}
use diplomski_rad.Base.Int.{ℤ, pos, neg}
use diplomski_rad.Errors.{success, e_retry, e_too_big, exit}
use diplomski_rad.Threads.{null, Kernel, set_errno}
use diplomski_rad.Scheduler.{Env}
use diplomski_rad.Scheduler.Laws.{HasReady, IsSettled, IsLawful}
use diplomski_rad.Messages.{Message, msg_queue, Msgs, copy_bytes, msg_to_queue}
use diplomski_rad.Messages.Send.{sys__msg_post}
use diplomski_rad.Messages.Receive.{
  search, receive_from, finish_receive, take_message, sys__msg_recv,
}
use diplomski_rad.Messages.Spec.{Mailbox, mailbox, deliver, await}
use diplomski_rad.Messages.Refine.{Shows, IsHandle, Done, stored, sent, waited, settled_at}

-- A message as its receiver gets it, over what was in the place before.
abbrev pub received : Message → Message → Message
received m over = record {
  type = m.type;
  size = m.size;
  bytes = copy_bytes m.size m.bytes over.bytes;
}

-- The outcomes of a call that receives any message into `msg`, with room for `size` bytes, and waits:
-- it takes the first message, or refuses it, or waits.
pub data Received (e : Env) (a least : ℕ) (b : Mailbox) (msg size : ℕ) (s : Msgs)
    : Option (ℤ × Msgs) → Type 0 where
  taken :
      (m : Message) (ms : List Message) (s' : Msgs)
      → b.inbox ≡ m ∷ ms
      → m.size ≤ size
      → Done e a least (mailbox ms b.waiting) s s'
      → s'.messages msg ≡ received m (s.messages msg)
      → Received e a least b msg size s (some (pos 0, s'))
  too_big :
      (m : Message) (ms : List Message) (s' : Msgs)
      → b.inbox ≡ m ∷ ms
      → size < m.size
      → Done e a least b s s'
      → (s'.messages msg).size ≡ 0
      → Received e a least b msg size s (some (neg e_too_big, s'))
  waits :
      (s' : Msgs)
      → b.inbox ≡ []
      → Done e a least (await s.kernel.active_thread b) s s'
      → Received e a least b msg size s (some (neg e_retry, s'))

module _ (e : Env) (law : IsLawful e) (s : Msgs) (u a : ℕ) (i : IsHandle e s u a)
    (settled : IsSettled s.kernel) (least : ℕ) (b : Mailbox) (w : Shows s a least b) (own : ℕ → ℕ)
    (msg : ℕ) (given : msg ≢ null) where
  checked : ((u == null) || (msg == null)) ≡ false
  checked = ground (arith, i.given, given)

  led : (s.handle u == null) ≡ false
  led = ground (arith, i.leads, i.there)

  live : (s.gid (s.handle u) == s.id u) ≡ true
  live = ground (arith, i.leads, i.same)

  -- sys__msg_post to the handle of a global queue that takes messages of the type does not halt,
  -- returns 0, and puts the message, its first size bytes, behind the others of the queue; the
  -- first thread that waits there, if any, is released; the kernel is settled afterwards, and the
  -- other queues are as they were. It needs lawful schedulers, memory for the message, and a
  -- settled kernel.
  pub sys__msg_post-deliver :
      (create : ℕ → ℕ → Message → Kernel → ℕ × Kernel) (fresh : ℕ)
      → fresh ≢ null
      → least ≤ (s.messages msg).type
      → (s' : Msgs) × (sys__msg_post e own create fresh msg_to_queue u msg s ≡ some (pos 0, s'))
        × Done e a least (deliver (stored (s.messages msg)) b) s s'
  unfolding sys__msg_post
  sys__msg_post-deliver create fresh room high =
      let (s', run, done) =
        sent e law s a i.public settled least b w fresh (s.messages msg) room high in
      (s', rw (checked, led, live, i.leads, w.there) run, done)

  now_there :
      (m : Message) (ms : List Message)
      → b.inbox ≡ m ∷ ms
      → s.msg_queues a ≡ some (msg_queue (m ∷ ms) least)
  now_there m ms q = w.there ∙ ap (λ l. some (msg_queue l least)) q

  from_inbox :
      (size : ℕ)
      → HasReady s.kernel
      → (inbox : List Message) → b.inbox ≡ inbox
      → Received e a least b msg size s (receive_from e a msg 0 size true s)
  unfolding receive_from finish_receive search take_message exit
  from_inbox size ready [] q =
      let (s', run, done) =
        waited e law s a i.public settled least b w s.kernel.active_thread refl ready in
      let whole : receive_from e a msg 0 size true s ≡ some (neg e_retry, s') =
        rw (w.there, q) run in
      subst (Received e a least b msg size s) (sym whole) (waits s' q done)
  from_inbox size ready (m ∷ ms) q = elim (Bool-cases (ltb size m.size)) [
    | inl small ↦
        let s' = record s {
          kernel = set_errno e_too_big s.kernel;
          messages = update s.messages msg (record (s.messages msg) { size = 0 });
        } in
        let whole : receive_from e a msg 0 size true s ≡ some (neg e_too_big, s') =
          rw (now_there m ms q, small) refl in
        subst (Received e a least b msg size s) (sym whole) (
          too_big m ms s' q (ground (arith, small))
            (settled_at e law s a i.public settled least b w e_too_big b.inbox s' refl w.there
              (λ c ne. refl))
            (ground arith))
    | inr fits ↦
        let s' = record s {
          kernel = set_errno success s.kernel;
          messages = update s.messages msg (received m (s.messages msg));
          msg_queues = update s.msg_queues a (some (msg_queue ms least));
        } in
        let whole : receive_from e a msg 0 size true s ≡ some (pos 0, s') =
          rw (now_there m ms q, fits) refl in
        subst (Received e a least b msg size s) (sym whole) (
          taken m ms s' q (ground (arith, fits))
            (settled_at e law s a i.public settled least b w success ms s' refl (ground arith)
              (λ c ne. ground (arith, ne)))
            (ground arith))
  ]

  -- sys__msg_recv of a message of any type with IPC_WAIT, from the handle of a global queue, does
  -- not halt: it takes the first message, which the caller gets byte by byte, or returns
  -- E_TOO_BIG and leaves the queue alone where the message does not fit, or returns E_RETRY with
  -- the caller behind the other threads that wait where there is no message. The kernel is
  -- settled afterwards, and the other queues are as they were. It needs lawful schedulers, a
  -- settled kernel and a ready thread.
  pub sys__msg_recv-Received :
      (size : ℕ)
      → HasReady s.kernel
      → Received e a least b msg size s (sys__msg_recv e own msg_to_queue u msg 0 size true s)
  unfolding sys__msg_recv
  sys__msg_recv-Received size ready =
      rw (checked, led, live, i.leads, w.there) (from_inbox size ready b.inbox refl)

  abbrev place_of : Option (ℕ × Message) → ℕ
  place_of none = 0
  place_of (some (n, m)) = n

  passed :
      (type : ℕ) (m : Message)
      → type ≢ 0
      → m.type ≢ type
      → (not (type == 0) && not (m.type == type)) ≡ true
  passed type m some_type other = ground arith

  search_later :
      (type place : ℕ) (ms : List Message) (n : ℕ) (m : Message)
      → search type place ms ≡ some (n, m)
      → place ≤ n
  unfolding search
  search_later type place [] n m found = cc found
  search_later type place (x ∷ ms) n m found =
      elim (Bool-cases (not (type == 0) && not (x.type == type))) [
        | inl go ↦ omega (arith, search_later type (place + 1) ms n m (rw go at found))
        | inr stop ↦ omega (arith, ap place_of (rw stop at found))
      ]

  -- sys__msg_recv of a type other than 0, where the first message of the queue has another type
  -- and the first of that type, behind it, fits, halts the kernel: the message that is removed is
  -- not the one that was found.
  pub sys__msg_recv-halts :
      (type size : ℕ) (ipc_wait : Bool) (m m' : Message) (ms : List Message) (n : ℕ)
      → b.inbox ≡ m ∷ ms
      → type ≢ 0
      → m.type ≢ type
      → search type 1 ms ≡ some (n, m')
      → m'.size ≤ size
      → sys__msg_recv e own msg_to_queue u msg type size ipc_wait s ≡ none
  unfolding sys__msg_recv receive_from finish_receive search take_message
  sys__msg_recv-halts type size ipc_wait m m' ms n q some_type other found fits =
      let at_first : search type 0 (m ∷ ms) ≡ some (n, m') =
        rw (passed type m some_type other) found in
      let small : ltb size m'.size ≡ false = ground (arith, fits) in
      let later : (n == 0) ≡ false = ground (arith, search_later type 1 ms n m' found) in
      let whole : sys__msg_recv e own msg_to_queue u msg type size ipc_wait s
          ≡ finish_receive e a msg size ipc_wait (msg_queue (m ∷ ms) least) (search type 0 (m ∷ ms))
              s =
        rw (checked, led, live, i.leads, now_there m ms q) refl in
      whole ∙ rw (at_first, small, later) refl
