-- ===== src/FirstFit.antt =====
-- lib/mm/ff_simple.c, the first-fit allocator. The memory holds a word at each address of one; a
-- `size_t` has 4 bytes, and sums of sizes wrap around at 2 ^ 32. A pool is known by its address, where its
-- `first` stands. The search for a chunk takes at most `fuel` rounds. A call is `none` where the kernel
-- halts or the rounds are not enough.
pub mod Blocks
use diplomski_rad.Base.{
  ℕ, zero, suc, ◌+◌, ◌-◌, ◌*◌, ◌/◌, ◌%◌, ◌^◌, Bool, not, ◌&&◌, ◌||◌, Option, none, some, ltb, leb,
  ◌==◌, if◌then◌else◌, ◌>>=◌, update,
}
use diplomski_rad.Base.Int.{ℤ, pos}
use diplomski_rad.Threads.{null}

abbrev pub Words : Type 0
Words = ℕ → ℕ

-- `sizeof (ffs_hdr_t)` is 12, and `sizeof (ffs_tail_t)` 4.
abbrev pub header_size : ℕ
header_size = 16

-- The fields of an `ffs_hdr_t`: `size`, `prev` and `next`.
abbrev pub prev_at : ℕ → ℕ
prev_at hdr = hdr + 4

abbrev pub next_at : ℕ → ℕ
next_at hdr = hdr + 8

-- The lowest bit of a size marks a chunk in use.
abbrev pub get_size : ℕ → Words → ℕ
get_size hdr w = w hdr / 2 * 2

abbrev pub mark_used : ℕ → Words → Words
mark_used hdr w = update w hdr (w hdr / 2 * 2 + 1)

abbrev pub mark_free : ℕ → Words → Words
mark_free hdr w = update w hdr (w hdr / 2 * 2)

abbrev pub check_free : ℕ → Words → Bool
check_free hdr w = w hdr % 2 == 0

abbrev pub get_after : ℕ → Words → ℕ
get_after hdr w = hdr + get_size hdr w

abbrev pub get_hdr : ℕ → Words → ℕ
get_hdr tail w = tail + 4 - get_size tail w

abbrev pub clone_size_to_tail : ℕ → Words → Words
clone_size_to_tail hdr w = update w (get_after hdr w - 4) (w hdr)

abbrev pub align : ℕ → ℕ
align p = p / 4 * 4

abbrev pub align_fw : ℕ → ℕ
align_fw p = (p + 3) % 2 ^ 32 / 4 * 4

unfoldable pub ffs_remove_chunk : ℕ → ℕ → Words → Words
ffs_remove_chunk mpool chunk w =
    let prev = w (prev_at chunk) in
    let next = w (next_at chunk) in
    let w1 = if chunk == w mpool then update w mpool next else update w (next_at prev) next in
    let next1 = w1 (next_at chunk) in
    if next1 == null then w1 else update w1 (prev_at next1) (w1 (prev_at chunk))

unfoldable pub ffs_insert_chunk : ℕ → ℕ → Words → Words
ffs_insert_chunk mpool chunk w =
    let w1 = update (update w (next_at chunk) (w mpool)) (prev_at chunk) null in
    let w2 = if w1 mpool == null then w1 else update w1 (prev_at (w1 mpool)) chunk in
    update w2 mpool chunk

-- The pool's address, or `NULL`, and the memory.
unfoldable pub ffs_init : ℕ → ℕ → Words → Option (ℕ × Words)
ffs_init mem_segm size w =
    let mpool = align_fw mem_segm in
    let start = mpool + 4 in
    let end = align ((mem_segm + size) % 2 ^ 32) in
    let w1 = update w mpool null in
    if (mem_segm == null) || leb size 24
    then none
    else if ltb ((2 ^ 32 + end - start) % 2 ^ 32) (2 * header_size)
    then some (null, w1)
    else (let w2 = mark_used start (update w1 start 4) in
        let chunk = get_after start w2 in
        let w3 =
          clone_size_to_tail chunk (mark_free chunk (update w2 chunk (end - start - 2 * 4))) in
        let border = get_after chunk w3 in
        let w4 = mark_used border (update w3 border 4) in
        some (mpool, ffs_insert_chunk mpool chunk w4))

-- The search for the first chunk that is large enough, or `NULL`.
unfoldable pub first_fit : ℕ → ℕ → ℕ → Words → Option ℕ
first_fit zero size iter w = none
first_fit (suc fuel) size iter w =
    let next = first_fit fuel size (w (next_at iter)) w in
    if not (iter == null) && ltb (w iter) size then next else some iter

-- The size of a chunk for a request.
unfoldable pub chunk_size : ℕ → ℕ
chunk_size size =
    let whole = (size + 4 * 2) % 2 ^ 32 in
    align_fw (if ltb whole header_size then header_size else whole)

-- The chunk cut off the end of a free one, or the whole of it, taken off the list.
unfoldable pub take_chunk : ℕ → ℕ → ℕ → Words → ℕ × Words
take_chunk mpool size iter w =
    if leb ((size + header_size) % 2 ^ 32) (w iter)
    then (let w1 = clone_size_to_tail iter (update w iter (w iter - size)) in
        (get_after iter w1, update w1 (get_after iter w1) size))
    else (iter, ffs_remove_chunk mpool iter w)

unfoldable pub ffs_alloc : ℕ → ℕ → ℕ → Words → Option (ℕ × Words)
ffs_alloc fuel mpool size w = if mpool == null then none else do
  iter ← first_fit fuel (chunk_size size) (w mpool) w
  let taken = take_chunk mpool (chunk_size size) iter w
  if iter == null
      then some (null, w)
      else some (taken.0 + 4, clone_size_to_tail taken.0 (mark_used taken.0 taken.1))

-- The join with the chunk before, if that is free: the start of the whole, and the memory.
unfoldable pub join_left : ℕ → ℕ → Words → ℕ × Words
join_left mpool chunk w =
    if check_free (chunk - 4) w
    then (let before = get_hdr (chunk - 4) w in
        let w1 = ffs_remove_chunk mpool before w in
        (before, update w1 before ((w1 before + w1 chunk) % 2 ^ 32)))
    else (chunk, w)

unfoldable pub join_right : ℕ → ℕ → Words → Words
join_right mpool chunk w =
    let after = get_after chunk w in
    if check_free after w
    then (let w1 = ffs_remove_chunk mpool after w in
        update w1 chunk ((w1 chunk + w1 after) % 2 ^ 32))
    else w

unfoldable pub ffs_free : ℕ → ℕ → Words → Option (ℤ × Words)
ffs_free mpool chunk_to_be_freed w =
    if (mpool == null) || (chunk_to_be_freed == null)
    then none
    else (let left =
          join_left mpool (chunk_to_be_freed - 4) (mark_free (chunk_to_be_freed - 4) w) in
        let w1 = ffs_insert_chunk mpool left.0 (join_right mpool left.0 left.1) in
        some (pos 0, clone_size_to_tail left.0 w1))
