-- ===== src/Tests/Pools.antt =====
-- Runs of the first-fit allocator, on a pool at 100 with one free chunk of 64 bytes at 200.
use diplomski_rad.Base.{
  ℕ, ◌≡◌, ◌≢◌, ◌⊎◌, refl, Option, none, some, [], ◌∷◌, ◌==◌, if◌then◌else◌, arith,
}
use diplomski_rad.Threads.{null}
use diplomski_rad.FirstFit.{Words, chunk_size, ffs_alloc, first_fit, take_chunk}
use diplomski_rad.FirstFit.Blocks.{IsFree, IsFreeList, first_of, IsServed, ffs_alloc-IsServed}

abbrev memory : Words
memory a = if a == 100 then 200 else if a == 200 then 64 else 0

chunk-IsFree : IsFree 100 200 64 memory
chunk-IsFree = record {
  there = omega arith;
  size = refl;
  words = refl;
  pool = omega arith;
  prev = omega arith;
  next = omega arith;
}

memory-IsFreeList : IsFreeList 100 (200 ∷ []) 200 memory
unfolding IsFreeList
memory-IsFreeList = (refl, chunk-IsFree, refl)

abbrev address : Option (ℕ × Words) → ℕ
address none = null
address (some (r, w)) = r

-- The block lies at the end of the chunk.
ffs_alloc_end : address (ffs_alloc 2 100 20 memory) ≡ 240
unfolding ffs_alloc first_fit chunk_size take_chunk
ffs_alloc_end = refl

ffs_alloc-IsServed_example :
    let f = first_of (chunk_size 20) memory (200 ∷ []) in
    ((f ≡ null) × (ffs_alloc 2 100 20 memory ≡ some (null, memory)))
    ⊎ ((f ≢ null) × IsServed f (memory f) 20 (ffs_alloc 2 100 20 memory))
ffs_alloc-IsServed_example =
    ffs_alloc-IsServed 2 100 20 memory (200 ∷ []) (omega arith) memory-IsFreeList (omega arith)
      (omega arith)
