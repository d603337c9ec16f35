-- ===== src/FirstFit/Blocks.antt =====
-- The blocks that `ffs_alloc` gives.
use diplomski_rad.Base.{
  ℕ, zero, suc, ◌+◌, ◌-◌, ◌%◌, ◌^◌, ◌≤◌, ◌<◌, ◌≡◌, ◌≢◌, refl, false, Option, none, some, ltb, ◌==◌,
  if◌then◌else◌, arith, Bool-cases, inl, inr, dec_lt, ℕ_discrete, ◌⊎◌, List, [], ◌∷◌, length,
}
use diplomski_rad.Threads.{null}
use diplomski_rad.FirstFit.{
  Words, prev_at, next_at, get_size, mark_used, clone_size_to_tail, ffs_remove_chunk, first_fit,
  chunk_size, take_chunk, ffs_alloc,
}

-- A free chunk of `c` bytes whose links lead outside of its own size and of the pool.
pub record IsFree (mpool f c : ℕ) (w : Words) : Type 0 where
  pub there : f ≢ null
  pub size : w f ≡ c
  pub words : c % 4 ≡ 0
  pub pool : mpool ≢ f
  pub prev : next_at (w (prev_at f)) ≢ f
  pub next : prev_at (w (next_at f)) ≢ f

-- A block in use at `r`, for a request of `size` bytes: its chunk lies in the `c` bytes at `f`.
pub record IsBlock (f c size r : ℕ) (w : Words) : Type 0 where
  pub start : f + 4 ≤ r
  pub inside : r - 4 + get_size (r - 4) w ≤ f + c
  pub room : size + 8 ≤ get_size (r - 4) w
  pub used : w (r - 4) % 2 ≡ 1

chunk_size_lem :
    (size : ℕ)
    → size + 32 < 2 ^ 32
    → (size + 8 ≤ chunk_size size)
      × (chunk_size size % 4 ≡ 0)
      × (16 ≤ chunk_size size)
      × (chunk_size size + 16 < 2 ^ 32)
unfolding chunk_size
chunk_size_lem size small = (ground arith, ground arith, ground arith, ground arith)

-- The chunk is marked, and its size cloned.
marked :
    (n chunk : ℕ) (w : Words)
    → w chunk ≡ n
    → n % 4 ≡ 0
    → 16 ≤ n
    → clone_size_to_tail chunk (mark_used chunk w) chunk ≡ n + 1
marked n chunk w same words least = grind arith

-- What the mark tells of a chunk.
block :
    (f c size n chunk : ℕ) (w : Words)
    → w chunk ≡ n + 1
    → n % 4 ≡ 0
    → size + 8 ≤ n
    → f ≤ chunk
    → chunk + n ≤ f + c
    → IsBlock f c size (chunk + 4) w
block f c size n chunk w same words room low high = record {
  start = omega arith;
  inside = grind arith;
  room = grind arith;
  used = grind arith;
}

finish :
    (f c size n chunk : ℕ) (w : Words)
    → w chunk ≡ n
    → n % 4 ≡ 0
    → 16 ≤ n
    → size + 8 ≤ n
    → f ≤ chunk
    → chunk + n ≤ f + c
    → IsBlock f c size (chunk + 4) (clone_size_to_tail chunk (mark_used chunk w))
finish f c size n chunk w same words least room low high =
    block f c size n chunk (clone_size_to_tail chunk (mark_used chunk w))
      (marked n chunk w same words least) words room low high

-- The chunk that is taken, and its size.
record IsTaken (f c n chunk : ℕ) (w : Words) : Type 0 where
  size : w chunk ≡ n
  low : f ≤ chunk
  high : chunk + n ≤ f + c

-- The end of a large chunk is cut off.
take_chunk_split :
    (mpool f c n : ℕ) (w : Words)
    → IsFree mpool f c w
    → n % 4 ≡ 0
    → 16 ≤ n
    → n + 16 < 2 ^ 32
    → n + 16 ≤ c
    → let taken = take_chunk mpool n f w in IsTaken f c n taken.0 taken.1
unfolding take_chunk
take_chunk_split mpool f c n w free words least fits large = record {
  size = ground arith;
  low = ground arith;
  high = ground arith;
}

-- A chunk that is not much larger is taken whole.
take_chunk_whole :
    (mpool f c n : ℕ) (w : Words)
    → IsFree mpool f c w
    → n + 16 < 2 ^ 32
    → c < n + 16
    → let taken = take_chunk mpool n f w in IsTaken f c c taken.0 taken.1
unfolding take_chunk ffs_remove_chunk
take_chunk_whole mpool f c n w free fits tight = record {
  size = ground arith;
  low = ground arith;
  high = ground arith;
}

-- The free list of a pool, from `p` on.
unfoldable pub IsFreeList : ℕ → List ℕ → ℕ → Words → Type 0
IsFreeList mpool [] p w = p ≡ null
IsFreeList mpool (x ∷ xs) p w =
    (p ≡ x) × IsFree mpool x (w x) w × IsFreeList mpool xs (w (next_at x)) w

-- The first chunk of the list with `size` bytes, or `NULL`.
unfoldable pub first_of : ℕ → Words → List ℕ → ℕ
first_of size w [] = null
first_of size w (x ∷ xs) = let rest = first_of size w xs in if ltb (w x) size then rest else x

test_null : (p : ℕ) → p ≢ null → (p == null) ≡ false
test_null p h = ground arith

first_fit-first_of :
    (fuel mpool size p : ℕ) (w : Words) (xs : List ℕ)
    → IsFreeList mpool xs p w
    → length xs < fuel
    → first_fit fuel size p w ≡ some (first_of size w xs)
unfolding first_fit first_of IsFreeList
first_fit-first_of zero mpool size p w xs chain enough = ground arith
first_fit-first_of (suc fuel) mpool size p w [] chain enough = ground arith
first_fit-first_of (suc fuel) mpool size p w (x ∷ xs) chain enough =
    let back = first_fit-first_of fuel mpool size (w (next_at x)) w xs chain.2 (omega arith) in
    elim (Bool-cases (ltb (w x) size)) [
      | inl e ↦ rw (chain.0, test_null x chain.1.there, e) back
      | inr e ↦ rw (chain.0, test_null x chain.1.there, e) refl
    ]

first_of_lem :
    (mpool size p : ℕ) (w : Words) (xs : List ℕ)
    → IsFreeList mpool xs p w
    → first_of size w xs ≢ null
    → let f = first_of size w xs in IsFree mpool f (w f) w × (size ≤ w f)
unfolding first_of IsFreeList
first_of_lem mpool size p w [] chain there = ground arith
first_of_lem mpool size p w (x ∷ xs) chain there = elim (Bool-cases (ltb (w x) size)) [
  | inl e ↦ rw e (first_of_lem mpool size (w (next_at x)) w xs chain.2 (λ end. there (rw e end)))
  | inr e ↦ rw e (chain.1, grind arith)
]

-- A call gave a block.
unfoldable pub IsServed : ℕ → ℕ → ℕ → Option (ℕ × Words) → Type 0
IsServed f c size none = ⊥
IsServed f c size (some (r, w)) = IsBlock f c size r w

-- The chunk is finished, whatever was taken.
taken_lem :
    (f c size n chunk : ℕ) (w : Words)
    → IsTaken f c n chunk w
    → n % 4 ≡ 0
    → 16 ≤ n
    → size + 8 ≤ n
    → IsServed f c size (some (chunk + 4, clone_size_to_tail chunk (mark_used chunk w)))
unfolding IsServed
taken_lem f c size n chunk w taken words least room =
    finish f c size n chunk w taken.size words least room taken.low taken.high

take_chunk_lem :
    (mpool f c size : ℕ) (w : Words)
    → IsFree mpool f c w
    → chunk_size size ≤ c
    → size + 32 < 2 ^ 32
    → let taken = take_chunk mpool (chunk_size size) f w in
      IsServed f c size (some (taken.0 + 4, clone_size_to_tail taken.0 (mark_used taken.0 taken.1)))
take_chunk_lem mpool f c size w free enough small =
    let k = chunk_size_lem size small in
    let taken = take_chunk mpool (chunk_size size) f w in
    elim (dec_lt c (chunk_size size + 16)) [
      | yes tight ↦
          taken_lem f c size c taken.0 taken.1
            (take_chunk_whole mpool f c (chunk_size size) w free k.3 tight) free.words (omega arith)
            (omega arith)
      | no large ↦
          taken_lem f c size (chunk_size size) taken.0 taken.1
            (take_chunk_split mpool f c (chunk_size size) w free k.1 k.2 k.3 (omega arith)) k.1 k.2
            k.0
    ]

-- With more rounds than the free list has chunks, and a size that does not wrap around when the
-- headers are added, ffs_alloc returns: NULL and the same memory where no chunk of the list is
-- large enough; else a block that is marked as used, whose chunk lies inside of the first chunk
-- that is large enough and has room for the request and its header and tail. The list's chunks
-- are told from the pool and from the header fields that removing a chunk writes, and have sizes
-- divisible by 4.
pub ffs_alloc-IsServed :
    (fuel mpool size : ℕ) (w : Words) (xs : List ℕ)
    → mpool ≢ null
    → IsFreeList mpool xs (w mpool) w
    → length xs < fuel
    → size + 32 < 2 ^ 32
    → let f = first_of (chunk_size size) w xs in
      ((f ≡ null) × (ffs_alloc fuel mpool size w ≡ some (null, w)))
      ⊎ ((f ≢ null) × IsServed f (w f) size (ffs_alloc fuel mpool size w))
unfolding ffs_alloc
ffs_alloc-IsServed fuel mpool size w xs pool chain enough small =
    let f = first_of (chunk_size size) w xs in
    let found = first_fit-first_of fuel mpool (chunk_size size) (w mpool) w xs chain enough in
    elim (ℕ_discrete f null) [
      | yes end ↦ inl (end, rw (test_null mpool pool, found, end) refl)
      | no there ↦
          let large = first_of_lem mpool (chunk_size size) (w mpool) w xs chain there in
          inr (
            there,
            rw (test_null mpool pool, found, test_null f there)
                (take_chunk_lem mpool f (w f) size w large.0 large.1 small),
          )
    ]
