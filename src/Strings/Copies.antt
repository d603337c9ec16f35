-- ===== src/Strings/Copies.antt =====
-- The copying operations on strings of lib/string.c: strcpy and strcat.
use diplomski_rad.Base.{
  ℕ, zero, suc, ◌+◌, ◌-◌, ◌≤◌, ◌<◌, ◌≡◌, ap, fun_ext, ◌∙◌, ◌⊎◌, inl, inr, some, ltb, arith,
  Bool-cases, update,
}
use diplomski_rad.Strings.{Mem, memcpy, strcpy, strcpy_from, strcat}
use diplomski_rad.Strings.Blocks.{copied, memcpy_at}
use diplomski_rad.Strings.Ends.{IsString, strlen_from_lem}

-- The string after its first character, in a memory that differs only at `d`.
IsString-rest :
    (mem : Mem) (d v s k : ℕ)
    → IsString mem s (suc k)
    → d ≤ s ⊎ s + suc k < d
    → IsString (update mem d v) (s + 1) k
IsString-rest mem d v s k string apart = record {
  inside = λ i small. grind (arith, string.inside (i + 1) (omega (arith, small)));
  ends = grind (arith, string.ends);
}

strcpy_from_lem :
    (k fuel dest src i : ℕ) (mem : Mem)
    → IsString mem (src + i) k
    → k < fuel
    → dest ≤ src ⊎ src + k < dest
    → strcpy_from fuel dest src i mem ≡ some (memcpy (dest + i) (src + i) (suc k) mem)
unfolding strcpy_from memcpy
strcpy_from_lem k zero dest src i mem string enough apart = absurd (omega arith)
strcpy_from_lem zero (suc fuel) dest src i mem string enough apart = grind (arith, string.ends)
strcpy_from_lem (suc k) (suc fuel) dest src i mem string enough apart =
    let next = IsString-rest mem (dest + i) (mem (src + i)) (src + i) k string (ground arith) in
    grind (
      arith,
      string.inside 0 (omega arith),
      strcpy_from_lem k fuel dest src (i + 1) (update mem (dest + i) (mem (src + i)))
          (grind (arith, next)) (omega arith) (ground arith),
    )

add_zero : (a : ℕ) → a + 0 ≡ a
add_zero a = omega arith

-- `strcpy` writes the string and its end, as `memcpy` would, and ends within its rounds, where the
-- copy does not overwrite the string before it is read.
pub strcpy-copied :
    (fuel dest src n : ℕ) (mem : Mem)
    → IsString mem src n
    → n < fuel
    → dest ≤ src ⊎ src + n < dest
    → strcpy fuel dest src mem ≡ some (copied dest src (suc n) mem)
unfolding strcpy
strcpy-copied fuel dest src n mem string enough apart =
    let copy = strcpy_from_lem n fuel dest src 0 mem (grind (arith, string)) enough apart in
    copy
    ∙ ap some (
        fun_ext
          (λ a. rw (add_zero dest, add_zero src) (memcpy_at dest src (suc n) mem a (ground arith))))

joined :
    (dest src m n : ℕ) (mem : Mem)
    → IsString mem dest m
    → IsString mem src n
    → IsString (copied (dest + m) src (suc n) mem) dest (m + n)
joined dest src m n mem first second = record {
  inside = λ i small. elim (Bool-cases (ltb i m)) [
    | inl e ↦ grind (arith, first.inside i (ground arith))
    | inr e ↦ grind (arith, second.inside (i - m) (ground arith))
  ];
  ends = grind (arith, second.ends);
}

-- strcat on two strings, within more rounds than their lengths and where the copy does not
-- overwrite the second one before it is read, ends with the first string followed by the second,
-- the end included, and no other byte changed.
strcat-IsString :
    (fuel dest src m n : ℕ) (mem : Mem)
    → IsString mem dest m
    → IsString mem src n
    → m < fuel
    → n < fuel
    → dest + m ≤ src ⊎ src + n < dest + m
    → (strcat fuel dest src mem ≡ some (copied (dest + m) src (suc n) mem))
      × IsString (copied (dest + m) src (suc n) mem) dest (m + n)
unfolding strcat
strcat-IsString fuel dest src m n mem first second enough_first enough_second apart = (
  rw (strlen_from_lem m fuel dest 0 m mem first (omega arith) enough_first)
      (strcpy-copied fuel (dest + m) src n mem second enough_second apart),
  joined dest src m n mem first second,
)
