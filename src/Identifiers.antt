-- ===== src/Identifiers.antt =====
-- kernel/memory.c: the identifiers of the system's resources. `MAX_RESOURCES` is 1000 (Makefile), and
-- a word of `idmask` has 32 bits. A call is `none` where the kernel halts, or reads or writes `idmask`
-- out of its bounds.
pub mod Words
pub mod Marks
pub mod Fresh
use Prim.Native.Nat.{bit_and, bit_or}
use diplomski_rad.Base.{
  ℕ, zero, suc, ◌+◌, ◌-◌, ◌/◌, ◌%◌, ◌^◌, Bool, not, ◌&&◌, Option, none, some, List, ltb, ◌==◌,
  if◌then◌else◌, get_or, set, length,
}

abbrev pub max_resources : ℕ
max_resources = 1000

abbrev pub wbits : ℕ
wbits = 32

abbrev pub mask_words : ℕ
mask_words = max_resources / wbits

-- The static variables.
pub record Ids : Type 0 where
  pub idmask : List ℕ
  pub last_id : ℕ

abbrev pub ids : List ℕ → ℕ → Ids
ids idmask last_id = record { idmask = idmask; last_id = last_id }

abbrev pub has_word : Ids → ℕ → Bool
has_word s id = ltb (id / wbits) (length s.idmask)

-- `idmask [ id / WBITS ] & ( 1 << ( id % WBITS ) )`, as a condition.
abbrev pub is_taken : List ℕ → ℕ → Bool
is_taken idmask id = not (bit_and (get_or idmask (id / wbits) 0) (2 ^ (id % wbits)) == 0)

abbrev pub take_id : List ℕ → ℕ → List ℕ
take_id idmask id =
    set idmask (id / wbits) (bit_or (get_or idmask (id / wbits) 0) (2 ^ (id % wbits)))

-- The loop. Its `continue` goes on to the condition, so it changes nothing.
unfoldable pub next_id : ℕ → ℕ → Ids → Option (ℕ × Ids)
next_id zero starting s = none
next_id (suc fuel) starting s =
    let last = (s.last_id + 1) % max_resources in
    let again = next_id fuel starting (ids s.idmask last) in
    if last == starting
    then none
    else if has_word s last
    then if is_taken s.idmask last then again else some (last, ids (take_id s.idmask last) last)
    else none

-- `last_id` is back at the start after as many rounds as there are identifiers.
unfoldable pub k_new_unique_id : Ids → Option (ℕ × Ids)
k_new_unique_id s = next_id max_resources s.last_id s

unfoldable pub k_free_unique_id : ℕ → Ids → Option Ids
k_free_unique_id id s =
    if ltb 0 id && ltb id max_resources && has_word s id
    then if is_taken s.idmask id
      then some (
          ids
            (set s.idmask (id / wbits)
              (bit_and (get_or s.idmask (id / wbits) 0) (2 ^ 32 - 1 - 2 ^ (id % wbits))))
            s.last_id)
      else none
    else none
