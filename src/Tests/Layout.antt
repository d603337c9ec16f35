-- ===== src/Tests/Layout.antt =====
-- A process of two pages, and a machine with two modules behind the kernel.
use diplomski_rad.Base.{
  ◌≡◌, inl, none, ltb, ◌>>=◌, refl, ◌+◌, ◌%◌, ◌≤◌, true, some, [], ◌∷◌, ◌==◌, if◌then◌else◌, update,
  arith,
}
use diplomski_rad.Base.Int.{pos}
use diplomski_rad.Errors.{e_too_big}
use diplomski_rad.Threads.{Kernel}
use diplomski_rad.Strings.{Mem, strcmp, strcmp_from}
use diplomski_rad.Strings.Ends.{IsString}
use diplomski_rad.MemoryMap.{
  Mseg, BootInfo, k_u2k_adr, k_k2u_adr, heap_of, align_to, align_up, above_modules,
}
use diplomski_rad.MemoryMap.Segments.{in_segment, k_u2k_adr-k_k2u_adr}
use diplomski_rad.MemoryMap.Heap.{EndBy, modules_of, memory_end, heap_of-IsClear}
use diplomski_rad.MemoryMap.Sysinfo.{Texts, sys__sysinfo, sys__sysinfo-IsPositive}
use diplomski_rad.Tests.Machine.{machine}

abbrev process : Mseg
process = record { start = 4096; size = 8192 }

abbrev neighbour : Mseg
neighbour = record { start = 12288; size = 4096 }

k_u2k_adr-k_k2u_adr_example :
    ((k_u2k_adr 100 process >>= (λ a. k_k2u_adr a process))
      ≡ (if ltb 100 process.size then some 100 else none))
    × ((k_k2u_adr 4196 process >>= (λ a. k_u2k_adr a process))
        ≡ (if in_segment 4196 process then some 4196 else none))
    × ((k_u2k_adr 100 process >>= (λ a. k_k2u_adr a neighbour)) ≡ none)
k_u2k_adr-k_k2u_adr_example =
    k_u2k_adr-k_k2u_adr process neighbour (omega arith) (omega arith) (inl (omega arith)) 100 4196

abbrev boot : BootInfo
boot = record {
  has_mods = true;
  mods =
      record { mod_start = 110000; mod_end = 200000; cmdline = 50 }
      ∷ record { mod_start = 204800; mod_end = 300000; cmdline = 80 }
      ∷ [];
  mem_upper = 32768;
}

room : (heap_of 100000 boot).start ≤ memory_end boot
unfolding heap_of align_up above_modules
room = omega arith

heap_of-IsClear_example :
    ((heap_of 100000 boot).start % align_to ≡ 0)
    × (100000 ≤ (heap_of 100000 boot).start)
    × EndBy (heap_of 100000 boot).start (modules_of boot)
    × ((heap_of 100000 boot).start + (heap_of 100000 boot).size ≡ memory_end boot)
heap_of-IsClear_example =
    heap_of-IsClear 100000 boot (omega arith) (omega arith, (omega arith, tt)) (omega arith) room
      (omega arith)

-- The word "p" at 10, and a heading of two characters at 100.
abbrev words : Mem
words a = if a == 10 then 112 else if a == 100 then 76 else if a == 101 then 105 else 0

abbrev texts : Texts
texts = record {
  system_info = 20;
  usage = 20;
  look_console = 20;
  programs = 10;
  memory = 20;
  threads = 20;
  hdr = 100;
  space = 20;
}

same_word : strcmp 5 10 10 words ≡ some (pos 0)
unfolding strcmp strcmp_from
same_word = refl

heading : IsString (update words 50 0) 100 2
heading = record { inside = λ i h. ground arith; ends = refl }

sys__sysinfo-IsPositive_example :
    (k' : Kernel) × (sys__sysinfo 5 texts 50 1 (some 10) [] machine words
      ≡ some ((pos e_too_big, k'), update words 50 0))
    × ((k'.threads k'.active_thread).errno ≡ pos e_too_big)
sys__sysinfo-IsPositive_example =
    sys__sysinfo-IsPositive 5 2 texts 50 1 10 machine words [] (omega arith) same_word heading
      (omega arith) (omega arith)
