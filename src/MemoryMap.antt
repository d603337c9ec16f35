-- ===== src/MemoryMap.antt =====
-- kernel/memory.c: the segments of the kernel and of processes, the addresses in them, and the programs
-- loaded as modules. Addresses have 32 bits and wrap around. `pname` is the address of the constant
-- `PNAME`, and `header` gives the start and the end that the header of a program names. The
-- allocator that is put on the heap is left out, and the loops over strings take at most `fuel` rounds.
pub mod Segments
pub mod Heap
pub mod Sysinfo
use diplomski_rad.Base.{
  ℕ, ◌+◌, ◌-◌, ◌*◌, ◌%◌, ◌^◌, Bool, not, ◌&&◌, Option, none, some, List, [], ◌∷◌, ◌++◌, ltb, leb,
  ◌==◌, if◌then◌else◌, ◌>>=◌, update,
}
use diplomski_rad.Base.Int.{ℤ, pos, neg}
use diplomski_rad.Errors.{e_too_big}
use diplomski_rad.Strings.{Mem, strlen, strcpy, strcat, strchr, strstr}

pub record Mseg : Type 0 where
  pub start : ℕ
  pub size : ℕ

unfoldable pub k_u2k_adr : ℕ → Mseg → Option ℕ
k_u2k_adr uadr m = if ltb uadr m.size then some ((uadr + m.start) % 2 ^ 32) else none

unfoldable pub k_k2u_adr : ℕ → Mseg → Option ℕ
k_k2u_adr kadr m =
    if leb m.start kadr && ltb kadr ((m.start + m.size) % 2 ^ 32)
    then some (kadr - m.start)
    else none

pub record BootModule : Type 0 where
  pub mod_start : ℕ
  pub mod_end : ℕ
  pub cmdline : ℕ

-- What the boot loader leaves; `has_mods` is the flag for the modules.
pub record BootInfo : Type 0 where
  pub has_mods : Bool
  pub mods : List BootModule
  pub mem_upper : ℕ

pub record Prog : Type 0 where
  pub prog_name : ℕ
  pub pi : ℕ
  pub m : Mseg

pub record MemoryLayout : Type 0 where
  pub k_kernel : Mseg
  pub k_heap : Mseg
  pub progs : List Prog

abbrev pub align_to : ℕ
align_to = 4096

-- The first loop over the modules.
unfoldable pub above_modules : ℕ → List BootModule → ℕ
above_modules max [] = max
above_modules max (entry ∷ l) =
    above_modules (if ltb max entry.mod_end then (entry.mod_end + 1) % 2 ^ 32 else max) l

unfoldable pub align_up : ℕ → ℕ
align_up max =
    if not (max % align_to == 0) then (max + (align_to - max % align_to)) % 2 ^ 32 else max

unfoldable pub heap_of : ℕ → BootInfo → Mseg
heap_of k_kernel_end mbi =
    let max =
      align_up (if mbi.has_mods then above_modules k_kernel_end mbi.mods else k_kernel_end) in
    record {
      start = max;
      size = ((mbi.mem_upper + 2 ^ 32 - 1024) % 2 ^ 32 * 1024 + 2 ^ 32 - max) % 2 ^ 32;
    }

-- One round of the second loop: a module with `prog_name=` in its command line is a program, and
-- its name ends before a space.
unfoldable pub add_prog :
    ℕ → ℕ → (ℕ → ℕ × ℕ) → BootModule → Mem × List Prog → Option (Mem × List Prog)
add_prog fuel pname header entry (mem, progs) = do
  found ← strstr fuel entry.cmdline pname mem
  if found == 0 then some (mem, progs) else (do
    name_size ← strlen fuel pname mem
    let name = found + name_size
    space ← strchr fuel name 32 mem
    let mem1 = if not (space == 0) then update mem space 0 else mem
    let (start_adr, end_adr) = header entry.mod_start
    let m : Mseg = record {
      start = entry.mod_start;
      size = (end_adr + 2 ^ 32 - start_adr) % 2 ^ 32;
    }
    some (mem1, progs ++ record { prog_name = name; pi = entry.mod_start; m = m } ∷ []))

unfoldable pub add_progs :
    ℕ → ℕ → (ℕ → ℕ × ℕ) → List BootModule → Mem × List Prog → Option (Mem × List Prog)
add_progs fuel pname header [] s = some s
add_progs fuel pname header (entry ∷ l) s =
    add_prog fuel pname header entry s >>= add_progs fuel pname header l

-- `compliant` says whether the magic number is right.
unfoldable pub k_memory_init :
    ℕ → ℕ → (ℕ → ℕ × ℕ) → Bool → ℕ → ℕ → BootInfo → Mem → Option (Mem × MemoryLayout)
k_memory_init fuel pname header compliant kernel_code k_kernel_end mbi mem =
    if not compliant then none else (do
      done ← if mbi.has_mods then add_progs fuel pname header mbi.mods (mem, []) else some (mem, [])
      let k : Mseg = record { start = kernel_code; size = k_kernel_end - kernel_code }
      some (done.0, record { k_kernel = k; k_heap = heap_of k_kernel_end mbi; progs = done.1 }))

-- The loop of `k_list_programs`; `space` is the address of the constant `" "`.
unfoldable pub list_names : ℕ → ℕ → ℕ → ℕ → ℕ → List Prog → Mem → Option (ℤ × Mem)
list_names fuel space buffer buf_size cur_size [] mem = some (pos 0, mem)
list_names fuel space buffer buf_size cur_size (prog ∷ l) mem = do
  n ← strlen fuel prog.prog_name mem
  let cur_size' = cur_size + n
  if ltb buf_size cur_size' then some (neg e_too_big, mem) else (do
    mem1 ← strcat fuel buffer prog.prog_name mem
    mem2 ← strcat fuel buffer space mem1
    list_names fuel space buffer buf_size cur_size' l mem2)

-- `hdr` is the address of the heading.
unfoldable pub k_list_programs : ℕ → ℕ → ℕ → ℕ → ℕ → List Prog → Mem → Option (ℤ × Mem)
k_list_programs fuel hdr space buffer buf_size progs mem = do
  let mem0 = update mem buffer 0
  n ← strlen fuel hdr mem0
  if ltb buf_size n then some (neg e_too_big, mem0) else (do
    mem1 ← strcpy fuel buffer hdr mem0
    list_names fuel space buffer buf_size 0 progs mem1)
