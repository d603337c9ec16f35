-- ===== src/Strings.antt =====
-- lib/string.c. The memory holds a byte at each address; addresses do not wrap around, since no
-- block or string of the kernel reaches the end of the address space. A `char` is signed, as it is
-- on the i386. A loop that looks for the end of a string takes at most `fuel` rounds, and the call is
-- `none` where they are not enough.
pub mod Blocks
pub mod Ends
pub mod Copies
pub mod Compare
pub mod Search
use diplomski_rad.Base.{
  ℕ, zero, suc, ◌+◌, ◌-◌, ◌*◌, ◌/◌, ◌%◌, ◌^◌, Bool, not, ◌&&◌, ◌||◌, Option, none, some, ltb, leb,
  ◌==◌, if◌then◌else◌, ◌>>=◌, update,
}
use diplomski_rad.Base.Int.{ℤ, pos, negsuc, ltb_ℤ}

abbrev pub Mem : Type 0
Mem = ℕ → ℕ

-- The loop of `memset`, with `n` rounds left.
unfoldable pub memset : ℕ → ℕ → ℕ → Mem → Mem
memset s c zero mem = mem
memset s c (suc n) mem = memset (s + 1) c n (update mem s (c % 256))

-- A 16-bit word stands in two bytes, the low one first.
abbrev pub put_word : ℕ → ℕ → ℕ → Mem → Mem
put_word a lo hi mem = update (update mem a lo) (a + 1) hi

unfoldable pub memsetw : ℕ → ℕ → ℕ → Mem → Mem
memsetw s c zero mem = mem
memsetw s c (suc n) mem = memsetw (s + 2) c n (put_word s (c % 256) (c / 256 % 256) mem)

unfoldable pub memcpy : ℕ → ℕ → ℕ → Mem → Mem
memcpy dest src zero mem = mem
memcpy dest src (suc n) mem = memcpy (dest + 1) (src + 1) n (update mem dest (mem src))

-- The second loop of `memmove`: the pointers run down from the last byte, so `n` rounds before the
-- end they are `n` bytes behind the start.
unfoldable pub copy_down : ℕ → ℕ → ℕ → Mem → Mem
copy_down dest src zero mem = mem
copy_down dest src (suc n) mem = copy_down dest src n (update mem (dest + n) (mem (src + n)))

unfoldable pub memmove : ℕ → ℕ → ℕ → Mem → Mem
memmove dest src n mem = if ltb dest src then memcpy dest src n mem else copy_down dest src n mem

unfoldable pub copy_words : ℕ → ℕ → ℕ → Mem → Mem
copy_words dest src zero mem = mem
copy_words dest src (suc n) mem =
    copy_words (dest + 2) (src + 2) n (put_word dest (mem src) (mem (src + 1)) mem)

unfoldable pub copy_words_down : ℕ → ℕ → ℕ → Mem → Mem
copy_words_down dest src zero mem = mem
copy_words_down dest src (suc n) mem =
    copy_words_down dest src n
      (put_word (dest + 2 * n) (mem (src + 2 * n)) (mem (src + 2 * n + 1)) mem)

unfoldable pub memmovew : ℕ → ℕ → ℕ → Mem → Mem
memmovew dest src n mem =
    if ltb dest src then copy_words dest src n mem else copy_words_down dest src n mem

unfoldable pub memcmp : ℕ → ℕ → ℕ → Mem → ℤ
memcmp a b zero mem = pos 0
memcmp a b (suc size) mem =
    let next = memcmp (a + 1) (b + 1) size mem in
    if ltb (mem a) (mem b) then negsuc 0 else if ltb (mem b) (mem a) then pos 1 else next

unfoldable pub strlen_from : ℕ → ℕ → ℕ → Mem → Option ℕ
strlen_from zero s i mem = none
strlen_from (suc fuel) s i mem =
    let next = strlen_from fuel s (i + 1) mem in if not (mem (s + i) == 0) then next else some i

unfoldable pub strlen : ℕ → ℕ → Mem → Option ℕ
strlen fuel s mem = strlen_from fuel s 0 mem

-- The number that a byte stands for as a `char`.
abbrev pub schar : ℕ → ℤ
schar b = if ltb b 128 then pos b else negsuc (255 - b)

unfoldable pub strcmp_from : ℕ → ℕ → ℕ → ℕ → Mem → Option ℤ
strcmp_from zero s1 s2 i mem = none
strcmp_from (suc fuel) s1 s2 i mem =
    let next = strcmp_from fuel s1 s2 (i + 1) mem in
    if not (mem (s1 + i) == 0) || not (mem (s2 + i) == 0)
    then if ltb_ℤ (schar (mem (s1 + i))) (schar (mem (s2 + i)))
      then some (negsuc 0)
      else if ltb_ℤ (schar (mem (s2 + i))) (schar (mem (s1 + i)))
      then some (pos 1)
      else next
    else some (pos 0)

unfoldable pub strcmp : ℕ → ℕ → ℕ → Mem → Option ℤ
strcmp fuel s1 s2 mem = strcmp_from fuel s1 s2 0 mem

-- `n` counts the characters that are left to compare.
unfoldable pub strncmp_from : ℕ → ℕ → ℕ → ℕ → Mem → ℤ
strncmp_from zero s1 s2 i mem = pos 0
strncmp_from (suc n) s1 s2 i mem =
    let next = strncmp_from n s1 s2 (i + 1) mem in
    if not (mem (s1 + i) == 0) || not (mem (s2 + i) == 0)
    then if ltb_ℤ (schar (mem (s1 + i))) (schar (mem (s2 + i)))
      then negsuc 0
      else if ltb_ℤ (schar (mem (s2 + i))) (schar (mem (s1 + i)))
      then pos 1
      else next
    else pos 0

unfoldable pub strncmp : ℕ → ℕ → ℕ → Mem → ℤ
strncmp s1 s2 n mem = strncmp_from n s1 s2 0 mem

unfoldable pub strcpy_from : ℕ → ℕ → ℕ → ℕ → Mem → Option Mem
strcpy_from zero dest src i mem = none
strcpy_from (suc fuel) dest src i mem =
    let next = strcpy_from fuel dest src (i + 1) (update mem (dest + i) (mem (src + i))) in
    if not (mem (src + i) == 0) then next else some (update mem (dest + i) 0)

unfoldable pub strcpy : ℕ → ℕ → ℕ → Mem → Option Mem
strcpy fuel dest src mem = strcpy_from fuel dest src 0 mem

unfoldable pub strcat : ℕ → ℕ → ℕ → Mem → Option Mem
strcat fuel dest src mem = do i ← strlen_from fuel dest 0 mem; strcpy fuel (dest + i) src mem

-- The address of the character, or `NULL`.
unfoldable pub strchr_from : ℕ → ℕ → ℕ → ℕ → Mem → Option ℕ
strchr_from zero s c i mem = none
strchr_from (suc fuel) s c i mem =
    let next = strchr_from fuel s c (i + 1) mem in
    if not (mem (s + i) == 0) then if mem (s + i) == c % 256 then some (s + i) else next else some 0

unfoldable pub strchr : ℕ → ℕ → ℕ → Mem → Option ℕ
strchr fuel s c mem = strchr_from fuel s c 0 mem

-- The inner loop of `strstr`: the first place where the strings differ or one of them ends.
unfoldable pub match_from : ℕ → ℕ → ℕ → ℕ → Mem → Option ℕ
match_from zero s1 s2 j mem = none
match_from (suc fuel) s1 s2 j mem =
    let next = match_from fuel s1 s2 (j + 1) mem in
    if not (mem (s1 + j) == 0) && not (mem (s2 + j) == 0) && (mem (s1 + j) == mem (s2 + j))
    then next
    else some j

-- The outer loop: `rounds` bounds its rounds.
unfoldable pub strstr_from : ℕ → ℕ → ℕ → ℕ → Mem → Option ℕ
strstr_from zero fuel s1 s2 mem = none
strstr_from (suc rounds) fuel s1 s2 mem =
    let next = strstr_from rounds fuel (s1 + 1) s2 mem in
    if not (s1 == 0) && not (s2 == 0)
    then (do
      j ← match_from fuel s1 s2 0 mem
      if mem (s2 + j) == 0 then some s1 else if mem (s1 + j) == 0 then some 0 else next)
    else some s1

unfoldable pub strstr : ℕ → ℕ → ℕ → Mem → Option ℕ
strstr fuel s1 s2 mem = strstr_from fuel fuel s1 s2 mem
