-- ===== src/Bits.antt =====
-- lib/bits_generic.h, lib/bits.h and arch/i386/arch/bits.h: indices of set bits, and `rand`.
pub mod Msb
use diplomski_rad.Base.{ℕ, ◌+◌, ◌*◌, ◌/◌, ◌%◌, ◌^◌, ◌≤◌, ◌<◌, leb, if◌then◌else◌}

-- One line `if ( num >= (1<<k) ) { msb += k; num >>= k; }` on the pair of `msb` and `num`.
unfoldable pub msb_step : ℕ → ℕ × ℕ → ℕ × ℕ
msb_step k (msb, num) = if leb (2 ^ k) num then (msb + k, num / 2 ^ k) else (msb, num)

unfoldable pub msb_index_32 : ℕ → ℕ
msb_index_32 num =
    let s = msb_step 2 (msb_step 4 (msb_step 8 (msb_step 16 (0, num)))) in
    if leb (2 ^ 1) s.1 then s.0 + 1 else s.0

unfoldable pub msb_index_64 : ℕ → ℕ
msb_index_64 num =
    let s = msb_step 2 (msb_step 4 (msb_step 8 (msb_step 16 (msb_step 32 (0, num))))) in
    if leb (2 ^ 1) s.1 then s.0 + 1 else s.0

-- The loop of `msb_index_generic`: `i` runs through 16, 8, 4, 2 and 1. The first argument bounds
-- the number of rounds.
unfoldable pub msb_loop : ℕ → ℕ → ℕ × ℕ → ℕ × ℕ
msb_loop ℕ.zero i s = s
msb_loop (ℕ.suc fuel) i s =
    let next = msb_loop fuel (i / 2) (msb_step i s) in if leb i 0 then s else next

unfoldable pub msb_index_generic : ℕ → ℕ
unfolding msb_loop
msb_index_generic num = (msb_loop 6 (4 * 8 / 2) (0, num)).0

unfoldable pub msb_index_int_n : ℕ → ℕ
unfolding msb_loop
msb_index_int_n num = (msb_loop 7 (8 * 8 / 2) (0, num)).0

-- `rand`: the value, and the new seed. Both are 32-bit words, and the shift is (32 - 16) / 2.
unfoldable pub rand : ℕ → ℕ × ℕ
rand seed = let seed' = (seed * 1103515245 + 12345) % 2 ^ 32 in (seed' / 2 ^ 8 % 2 ^ 16, seed')

-- What `arch_msb_index` has to return, the machine instruction `bsr` of arch/i386/arch/bits.h: the
-- index of the highest set bit of a word that is not 0.
pub record MsbIndex (msb_index : ℕ → ℕ) : Type 0 where
  pub low : (n : ℕ) → 0 < n → n < 2 ^ 32 → 2 ^ msb_index n ≤ n
  pub high : (n : ℕ) → 0 < n → n < 2 ^ 32 → n < 2 ^ (msb_index n + 1)
