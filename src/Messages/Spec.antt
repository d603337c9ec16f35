-- ===== src/Messages/Spec.antt =====
-- A mailbox: the messages that were sent to it and not yet received, and the threads that wait for
-- one, the first in front.
use diplomski_rad.Base.{ℕ, List, [], ◌∷◌, ◌++◌}
use diplomski_rad.Base.Members.{rest}
use diplomski_rad.Messages.{Message}

pub record Mailbox : Type 0 where
  pub inbox : List Message
  pub waiting : List ℕ

abbrev pub mailbox : List Message → List ℕ → Mailbox
mailbox inbox waiting = record { inbox = inbox; waiting = waiting }

-- A message goes behind the others, and wakes the thread that has waited longest.
abbrev pub deliver : Message → Mailbox → Mailbox
deliver m b = mailbox (b.inbox ++ m ∷ []) (rest b.waiting)

-- Who finds no message waits behind the others.
abbrev pub await : ℕ → Mailbox → Mailbox
await me b = mailbox b.inbox (b.waiting ++ me ∷ [])
