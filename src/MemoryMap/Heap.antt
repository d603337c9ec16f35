-- ===== src/MemoryMap/Heap.antt =====
-- The heap of the kernel, which lies above the kernel and the modules.
use diplomski_rad.Base.{
  ℕ, ◌+◌, ◌-◌, ◌*◌, ◌%◌, ◌^◌, ◌<◌, ◌≤◌, ◌≡◌, refl, inl, inr, List, [], ◌∷◌, ltb, if◌then◌else◌,
  Bool-cases, arith,
}
use diplomski_rad.MemoryMap.{BootModule, BootInfo, align_to, above_modules, align_up, heap_of}

-- Every module ends at `b` or below.
abbrev pub EndBy : ℕ → List BootModule → Type 0
EndBy b [] = Unit
EndBy b (entry ∷ l) = (entry.mod_end ≤ b) × EndBy b l

-- Below this address nothing wraps around.
abbrev pub top_address : ℕ
top_address = 2 ^ 32 - 8192

raised : ℕ → BootModule → ℕ
raised max entry = if ltb max entry.mod_end then (entry.mod_end + 1) % 2 ^ 32 else max

raised_lem :
    (max : ℕ) (entry : BootModule)
    → max ≤ top_address + 1
    → entry.mod_end ≤ top_address
    → (max ≤ raised max entry)
      × (entry.mod_end ≤ raised max entry)
      × (raised max entry ≤ top_address + 1)
unfolding raised
raised_lem max entry h e = ground arith

above_modules_lem :
    (max : ℕ) (l : List BootModule)
    → max ≤ top_address + 1
    → EndBy top_address l
    → (max ≤ above_modules max l)
      × EndBy (above_modules max l) l
      × (above_modules max l ≤ top_address + 1)
unfolding above_modules raised
above_modules_lem max [] h ends = (omega arith, tt, h)
above_modules_lem max (entry ∷ l) h (e, ends) =
    let (a, b, c) = raised_lem max entry h e in
    let (p, q, r) = above_modules_lem (raised max entry) l c ends in
    (omega (arith, a, p), (omega (arith, b, p), q), r)

align_up_lem :
    (max : ℕ)
    → max ≤ top_address + 1
    → (align_up max % align_to ≡ 0) × (max ≤ align_up max) × (align_up max < max + align_to)
unfolding align_up
align_up_lem max h = ground arith

EndBy-mono : (a b : ℕ) (l : List BootModule) → a ≤ b → EndBy a l → EndBy b l
EndBy-mono a b [] h ends = tt
EndBy-mono a b (entry ∷ l) h (e, ends) = (omega (arith, e), EndBy-mono a b l h ends)

abbrev pub modules_of : BootInfo → List BootModule
modules_of mbi = if mbi.has_mods then mbi.mods else []

-- The end of the memory that the heap is to have.
abbrev pub memory_end : BootInfo → ℕ
memory_end mbi = (mbi.mem_upper - 1024) * 1024

raised-start :
    (k_end : ℕ) (mbi : BootInfo)
    → (if mbi.has_mods then above_modules k_end mbi.mods else k_end)
      ≡ above_modules k_end (modules_of mbi)
unfolding above_modules
raised-start k_end mbi = elim (Bool-cases mbi.has_mods) [ inl e ↦ rw e refl | inr e ↦ rw e refl ]

-- The heap that k_memory_init lays out starts at a multiple of ALIGN_TO, at the end of the kernel
-- and of every module or above, and ends where mem_upper - 1024 kilobytes do. The kernel and the
-- modules have to end 8 kB below 2 ^ 32 or more, mem_upper must be 1024 or more, and the heap
-- must start before its end, which lies below 2 ^ 32.
pub heap_of-IsClear :
    (k_end : ℕ) (mbi : BootInfo)
    → k_end ≤ top_address
    → EndBy top_address (modules_of mbi)
    → 1024 ≤ mbi.mem_upper
    → (heap_of k_end mbi).start ≤ memory_end mbi
    → memory_end mbi < 2 ^ 32
    → ((heap_of k_end mbi).start % align_to ≡ 0)
      × (k_end ≤ (heap_of k_end mbi).start)
      × EndBy (heap_of k_end mbi).start (modules_of mbi)
      × ((heap_of k_end mbi).start + (heap_of k_end mbi).size ≡ memory_end mbi)
unfolding heap_of
heap_of-IsClear k_end mbi h ends enough room fits = clear _ (raised-start k_end mbi) room
  where
    clear :
        (max : ℕ)
        → max ≡ above_modules k_end (modules_of mbi)
        → align_up max ≤ memory_end mbi
        → (align_up max % align_to ≡ 0)
          × (k_end ≤ align_up max)
          × EndBy (align_up max) (modules_of mbi)
          × (align_up max
                + ((mbi.mem_upper + 2 ^ 32 - 1024) % 2 ^ 32 * 1024 + 2 ^ 32 - align_up max) % 2 ^ 32
              ≡ memory_end mbi)
    clear max eq below =
        let (a, b, c) = above_modules_lem k_end (modules_of mbi) (omega (arith, h)) ends in
        let (p, q, r) = align_up_lem max (omega (arith, eq, c)) in
        (
          p,
          omega (arith, a, q, eq),
          EndBy-mono _ _ (modules_of mbi) (omega (arith, q, eq)) b,
          omega (arith, enough, below, fits),
        )
