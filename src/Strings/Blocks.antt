-- ===== src/Strings/Blocks.antt =====
-- The block operations of lib/string.c, read byte by byte.
use diplomski_rad.Base.{
  ℕ, zero, suc, ◌+◌, ◌-◌, ◌%◌, ◌/◌, ◌≤◌, ◌≡◌, sym, ◌∙◌, fun_ext, ◌*◌, ◌⊎◌, inl, inr, Bool, ◌==◌,
  ◌&&◌, ltb, leb, if◌then◌else◌, arith, Bool-cases, ltb-false, update,
}
use diplomski_rad.Strings.{
  Mem, memset, memcpy, copy_down, memmove, memmovew, copy_words, copy_words_down, put_word, memsetw,
}

-- Whether an address lies in the block of `n` bytes at `s`.
abbrev pub in_block : ℕ → ℕ → ℕ → Bool
in_block s n a = leb s a && ltb a (s + n)

pub memset_at :
    (s c n : ℕ) (mem : Mem) (a : ℕ)
    → memset s c n mem a ≡ (if in_block s n a then c % 256 else mem a)
unfolding memset
memset_at s c zero mem a = ground arith
memset_at s c (suc n) mem a = ground (arith, memset_at (s + 1) c n (update mem s (c % 256)) a)

-- The block's bytes as they were before, at their new place.
abbrev pub copied : ℕ → ℕ → ℕ → Mem → Mem
copied dest src n mem a = if in_block dest n a then mem (src + (a - dest)) else mem a

pub memcpy_at :
    (dest src n : ℕ) (mem : Mem) (a : ℕ)
    → dest ≤ src ⊎ src + n ≤ dest
    → memcpy dest src n mem a ≡ copied dest src n mem a
unfolding memcpy
memcpy_at dest src zero mem a apart = ground arith
memcpy_at dest src (suc n) mem a apart =
    memcpy_at (dest + 1) (src + 1) n (update mem dest (mem src)) a (ground arith) ∙ grind arith

copy_down_at :
    (dest src n : ℕ) (mem : Mem) (a : ℕ)
    → src ≤ dest
    → copy_down dest src n mem a ≡ copied dest src n mem a
unfolding copy_down
copy_down_at dest src zero mem a apart = ground arith
copy_down_at dest src (suc n) mem a apart =
    copy_down_at dest src n (update mem (dest + n) (mem (src + n))) a apart ∙ grind arith

-- memmove leaves at each address of the new block the byte that stood at its place in the old
-- block before the call, however the two blocks overlap, and no other byte changed.
memmove_at :
    (dest src n : ℕ) (mem : Mem) (a : ℕ) → memmove dest src n mem a ≡ copied dest src n mem a
unfolding memmove
memmove_at dest src n mem a = elim (Bool-cases (ltb dest src)) [
  | inl e ↦ rw e (memcpy_at dest src n mem a (inl (ground arith)))
  | inr e ↦ rw e (copy_down_at dest src n mem a (ltb-false dest src e))
]

copy_words_at :
    (dest src n : ℕ) (mem : Mem) (a : ℕ)
    → dest ≤ src
    → copy_words dest src n mem a ≡ copied dest src (2 * n) mem a
unfolding copy_words
copy_words_at dest src zero mem a apart = ground arith
copy_words_at dest src (suc n) mem a apart =
    copy_words_at (dest + 2) (src + 2) n (put_word dest (mem src) (mem (src + 1)) mem) a
      (omega arith)
    ∙ grind arith

copy_words_down_at :
    (dest src n : ℕ) (mem : Mem) (a : ℕ)
    → src ≤ dest
    → copy_words_down dest src n mem a ≡ copied dest src (2 * n) mem a
unfolding copy_words_down
copy_words_down_at dest src zero mem a apart = ground arith
copy_words_down_at dest src (suc n) mem a apart =
    copy_words_down_at dest src n
      (put_word (dest + 2 * n) (mem (src + 2 * n)) (mem (src + 2 * n + 1)) mem) a apart
    ∙ grind arith

-- `memmovew` moves the words as `memmove` moves their bytes.
pub memmovew-memmove :
    (dest src n : ℕ) (mem : Mem) → memmovew dest src n mem ≡ memmove dest src (2 * n) mem
unfolding memmovew
memmovew-memmove dest src n mem = fun_ext (λ a. elim (Bool-cases (ltb dest src)) [
  | inl e ↦
      rw e (copy_words_at dest src n mem a (ground arith) ∙ sym (memmove_at dest src (2 * n) mem a))
  | inr e ↦
      rw e (
        copy_words_down_at dest src n mem a (ground arith)
        ∙ sym (memmove_at dest src (2 * n) mem a))
])

-- `memsetw` fills the block with the two bytes of the word.
pub memsetw_at :
    (s c n : ℕ) (mem : Mem) (a : ℕ)
    → memsetw s c n mem a ≡ (
        if in_block s (2 * n) a then if (a - s) % 2 == 0 then c % 256 else c / 256 % 256 else mem a)
unfolding memsetw
memsetw_at s c zero mem a = ground arith
memsetw_at s c (suc n) mem a =
    memsetw_at (s + 2) c n (put_word s (c % 256) (c / 256 % 256) mem) a ∙ grind arith
