-- ===== src/Tests/Services.antt =====
-- Runs of the calls on identifiers, messages and devices, on the small machine.
use diplomski_rad.Base.{
  ℕ, ◌+◌, ◌≡◌, refl, inl, Bool, true, false, none, some, List, [], ◌∷◌, ◌==◌, if◌then◌else◌, arith,
  replicate,
}
use diplomski_rad.Base.Int.{pos, negsuc}
use diplomski_rad.Threads.{Kernel, null}
use diplomski_rad.Strings.{strcmp, strcmp_from}
use diplomski_rad.Identifiers.{Ids, ids, k_new_unique_id}
use diplomski_rad.Identifiers.Fresh.{
  Outcome, ComesBack, k_new_unique_id-Outcome, k_free_unique_id-k_new_unique_id,
}
use diplomski_rad.Messages.{Message, msg_queue, Msgs, msg_to_queue}
use diplomski_rad.Messages.Send.{sys__msg_post}
use diplomski_rad.Messages.Receive.{sys__msg_recv, search}
use diplomski_rad.Messages.Spec.{mailbox, deliver}
use diplomski_rad.Messages.Refine.{Shows, IsHandle, Done, stored}
use diplomski_rad.Messages.Calls.{
  Received, sys__msg_post-deliver, sys__msg_recv-Received, sys__msg_recv-halts,
}
use diplomski_rad.Devices.{Devs, Kdevice, k_device_lock, k_device_unlock}
use diplomski_rad.Devices.Spec.{lock, acquire, release}
use diplomski_rad.Devices.Refine
use diplomski_rad.Devices.Refine.{k_device_lock-acquire, k_device_unlock-release}
use diplomski_rad.Devices.Open.{Finds, here}
use diplomski_rad.Tests.Machine.{
  fifo, fifo-IsLawful, machine, machine-IsSettled, machine-HasReady, machine-queue,
}
use diplomski_rad.Tests.Texts.{texts}

abbrev no_ids : Ids
no_ids = ids (replicate 31 0) 0

k_new_unique_id-Outcome_example : Outcome no_ids (k_new_unique_id no_ids)
k_new_unique_id-Outcome_example = k_new_unique_id-Outcome no_ids refl (omega arith)

k_free_unique_id-k_new_unique_id_example : ComesBack no_ids (k_new_unique_id no_ids)
k_free_unique_id-k_new_unique_id_example =
    k_free_unique_id-k_new_unique_id no_ids 5 refl (omega arith) (omega arith) refl

abbrev ping : Message
ping = record { type = 2; size = 3; bytes = 112 ∷ 105 ∷ 110 ∷ 103 ∷ [] }

abbrev pong : Message
pong = record { type = 1; size = 1; bytes = 111 ∷ [] }

-- A queue at 7, where thread 3 waits, under the handle at 20; the messages at 30 and 31.
abbrev post_office : List Message → Msgs
post_office inbox = record {
  kernel = machine;
  ids = no_ids;
  msg_queues = λ a. if a == 7 then some (msg_queue inbox 1) else none;
  gid = λ a. 4;
  kmsg_qs = 7 ∷ [];
  handle = λ u. if u == 20 then 7 else null;
  id = λ u. 4;
  thread = λ u. null;
  thr_id = λ u. 0;
  messages = λ m. if m == 30 then ping else pong;
  sig_prio = λ t. 0;
  signal_handler = λ t. null;
}

post_office-Shows : (inbox : List Message) → Shows (post_office inbox) 7 1 (mailbox inbox (3 ∷ []))
post_office-Shows inbox = record { there = refl; queue = machine-queue }

post_office-IsHandle : (inbox : List Message) → IsHandle fifo (post_office inbox) 20 7
post_office-IsHandle inbox = record {
  given = omega arith;
  leads = refl;
  there = omega arith;
  same = refl;
  public = refl;
}

-- No thread is made for a signal.
abbrev no_thread : ℕ → ℕ → Message → Kernel → ℕ × Kernel
no_thread t handler m k = (null, k)

abbrev own : ℕ → ℕ
own t = t + 100

sys__msg_post-deliver_example :
    (s' : Msgs) × (sys__msg_post fifo own no_thread 50 msg_to_queue 20 30 (post_office [])
      ≡ some (pos 0, s'))
    × Done fifo 7 1 (deliver (stored ping) (mailbox [] (3 ∷ []))) (post_office []) s'
sys__msg_post-deliver_example =
    sys__msg_post-deliver fifo fifo-IsLawful (post_office []) 20 7 (post_office-IsHandle [])
      machine-IsSettled 1 (mailbox [] (3 ∷ [])) (post_office-Shows []) own 30 (omega arith)
      no_thread 50 (omega arith) (omega arith)

sys__msg_recv-Received_example :
    Received fifo 7 1
      (mailbox (ping ∷ pong ∷ []) (3 ∷ []))
      31
      16
      (post_office (ping ∷ pong ∷ []))
      (sys__msg_recv fifo own msg_to_queue 20 31 0 16 true (post_office (ping ∷ pong ∷ [])))
sys__msg_recv-Received_example =
    sys__msg_recv-Received fifo fifo-IsLawful (post_office (ping ∷ pong ∷ [])) 20 7
      (post_office-IsHandle (ping ∷ pong ∷ [])) machine-IsSettled 1
      (mailbox (ping ∷ pong ∷ []) (3 ∷ [])) (post_office-Shows (ping ∷ pong ∷ [])) own 31
      (omega arith) 16 machine-HasReady

sys__msg_recv-halts_example :
    sys__msg_recv fifo own msg_to_queue 20 31 1 16 false (post_office (ping ∷ pong ∷ [])) ≡ none
sys__msg_recv-halts_example =
    sys__msg_recv-halts fifo fifo-IsLawful (post_office (ping ∷ pong ∷ [])) 20 7
      (post_office-IsHandle (ping ∷ pong ∷ [])) machine-IsSettled 1
      (mailbox (ping ∷ pong ∷ []) (3 ∷ [])) (post_office-Shows (ping ∷ pong ∷ [])) own 31
      (omega arith) 1 16 false ping pong (pong ∷ []) 1 refl (omega arith) (omega arith)
      (unfold search in refl) (omega arith)

-- A console at 7, not shared and locked, with the name "ab"; thread 3 waits for it.
abbrev console : Bool → Kdevice
console locked = record {
  dev = record {
    dev_name = 1;
    irq_num = negsuc 0;
    irq_handler = null;
    callback = null;
    init = none;
    destroy = none;
    send = none;
    recv = none;
    flags = 2;
    params = null;
  };
  is_open = false;
  locked = locked;
}

abbrev consoles : Devs
consoles = record {
  kernel = machine;
  mem = texts;
  kdevices = λ a. if a == 7 then some (console true) else none;
  devices = 7 ∷ [];
  u_stdin = null;
  u_stdout = null;
}

consoles-Shows : Refine.Shows consoles 7 (console true) (lock true (3 ∷ []))
consoles-Shows = record { there = refl; taken = refl; queue = machine-queue; fair = inl refl }

k_device_lock-acquire_example :
    (s' : Devs) × (k_device_lock fifo 7 true consoles ≡ some (pos 0, s'))
    × Refine.Done fifo 7
        (console true)
        (acquire machine.active_thread (lock true (3 ∷ [])))
        consoles
        s'
k_device_lock-acquire_example =
    k_device_lock-acquire fifo fifo-IsLawful 7 refl consoles machine-IsSettled (console true)
      (lock true (3 ∷ [])) consoles-Shows machine-HasReady

k_device_unlock-release_example :
    (s' : Devs) × (k_device_unlock fifo 7 consoles ≡ some (pos 0, s'))
    × Refine.Done fifo 7 (console true) (release (lock true (3 ∷ []))) consoles s'
k_device_unlock-release_example =
    k_device_unlock-release fifo fifo-IsLawful 7 refl consoles machine-IsSettled (console true)
      (lock true (3 ∷ [])) consoles-Shows refl

console_found : Finds 8 1 consoles 7 (console true) (7 ∷ [])
unfolding strcmp strcmp_from
console_found = here [] refl refl
