-- ===== src/MemoryMap/Sysinfo.antt =====
-- `sys__sysinfo` of kernel/memory.c. The constants of the text are known by their addresses; the
-- arguments are taken as translated, and `none` stands for a `NULL` in the array of parameters. What
-- k_memory_info and kthread_info print is left out.
use diplomski_rad.Base.{
  ℕ, ◌<◌, ◌≡◌, ◌≢◌, refl, sym, subst, fun_ext, inl, inr, Bool-cases, true, false, List, Option,
  none, some, ltb, ◌==◌, if◌then◌else◌, ◌>>=◌, update, arith,
}
use diplomski_rad.Base.Int.{ℤ, pos, neg, ◌-ℤ◌}
use diplomski_rad.Strings.Ends.{IsString, strlen_lem}
use diplomski_rad.Lifetimes.{is_zero}
use diplomski_rad.Errors.{success, e_param_null, e_dont_exist, e_too_big, exit}
use diplomski_rad.Threads.{Kernel, null, put_thread}
use diplomski_rad.Strings.{Mem, strlen, strcpy, strcmp}
use diplomski_rad.MemoryMap.{Prog, k_list_programs}

pub record Texts : Type 0 where
  pub system_info : ℕ
  pub usage : ℕ
  pub look_console : ℕ
  pub programs : ℕ
  pub memory : ℕ
  pub threads : ℕ
  pub hdr : ℕ
  pub space : ℕ

-- `EXIT`, with the memory.
abbrev pub exit_in : ℕ → Kernel → Mem → (ℤ × Kernel) × Mem
exit_in e k mem = (exit e k, mem)

-- A text is put into the buffer, if that is not too small.
unfoldable pub give_text : ℕ → ℕ → ℕ → ℕ → ℕ → Kernel → Mem → Option ((ℤ × Kernel) × Mem)
give_text fuel text buffer buf_size e k mem = do
  n ← strlen fuel text mem
  if ltb buf_size n
      then some (exit_in e_too_big k mem)
      else (do mem1 ← strcpy fuel buffer text mem; some (exit_in e k mem1))

-- `EXIT ( k_list_programs ( ... ) )`: the macro has its argument twice, and negates it.
unfoldable pub exit_list :
    ℕ → Texts → ℕ → ℕ → List Prog → Kernel → Mem → Option ((ℤ × Kernel) × Mem)
exit_list fuel texts buffer buf_size progs k mem = do
  first ← k_list_programs fuel texts.hdr texts.space buffer buf_size progs mem
  let th = k.threads k.active_thread
  let k1 = put_thread k.active_thread (record th { errno = pos 0 -ℤ first.0 }) k
  second ← k_list_programs fuel texts.hdr texts.space buffer buf_size progs first.1
  some ((pos 0 -ℤ second.0, k1), second.1)

unfoldable pub sys__sysinfo :
    ℕ → Texts → ℕ → ℕ → Option ℕ → List Prog → Kernel → Mem → Option ((ℤ × Kernel) × Mem)
sys__sysinfo fuel texts buffer buf_size param progs k mem =
    let look = give_text fuel texts.look_console buffer buf_size success k mem in
    let help = give_text fuel texts.usage buffer buf_size e_dont_exist k mem in
    if buffer == null then some (exit_in e_param_null k mem) else elim param [
      | none ↦ give_text fuel texts.system_info buffer buf_size success k mem
      | some p ↦ (do
        a ← strcmp fuel texts.programs p mem
        if is_zero a then exit_list fuel texts buffer buf_size progs k mem else (do
          b ← strcmp fuel texts.memory p mem
          if is_zero b
              then look
              else (do c ← strcmp fuel texts.threads p mem; if is_zero c then look else help)))
    ]

-- A heading that is longer than the buffer.
module _ (fuel n : ℕ) (texts : Texts) (buffer buf_size p : ℕ) (k : Kernel) (mem : Mem) where
  abbrev emptied : Mem
  emptied = update mem buffer 0

  refused :
      (m : Mem) (progs : List Prog)
      → IsString (update m buffer 0) texts.hdr n
      → n < fuel
      → buf_size < n
      → k_list_programs fuel texts.hdr texts.space buffer buf_size progs m
        ≡ some (neg e_too_big, update m buffer 0)
  unfolding k_list_programs
  refused m progs h enough small =
      let big : ltb buf_size n ≡ true = ground arith in
      rw (strlen_lem fuel texts.hdr n (update m buffer 0) h enough, big)

  twice : update emptied buffer 0 ≡ emptied
  twice = fun_ext (λ a. elim (Bool-cases (a == buffer)) [ inl e ↦ rw e refl | inr e ↦ rw e refl ])

  -- Asked for the programs, with a buffer at an address other than NULL that is shorter than the
  -- heading, sys__sysinfo returns E_TOO_BIG itself and not its negation, as it does for other
  -- texts, and so it sets the error number; it empties the buffer. The heading has to be a string
  -- while the buffer is empty.
  pub sys__sysinfo-IsPositive :
      (progs : List Prog)
      → buffer ≢ null
      → strcmp fuel texts.programs p mem ≡ some (pos 0)
      → IsString emptied texts.hdr n
      → n < fuel
      → buf_size < n
      → (k' : Kernel) × (sys__sysinfo fuel texts buffer buf_size (some p) progs k mem
          ≡ some ((pos e_too_big, k'), emptied))
        × ((k'.threads k'.active_thread).errno ≡ pos e_too_big)
  unfolding sys__sysinfo exit_list ◌-ℤ◌
  sys__sysinfo-IsPositive progs nb same h enough small =
      let b : (buffer == null) ≡ false = ground arith in
      let first = refused mem progs h enough small in
      let second =
        refused emptied progs (subst (λ m. IsString m texts.hdr n) (sym twice) h) enough small in
      rw (b, same, first, second, twice) (_, refl, ground arith)
