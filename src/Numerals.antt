-- ===== src/Numerals.antt =====
-- `itoa` of lib/string.c. An int and an unsigned long have 32 bits. The loops take at most `rounds`
-- rounds, and the call is `none` where they are not enough.
pub mod Digits
pub mod Reverse
pub mod RoundTrip
use diplomski_rad.Base.{
  ℕ, zero, suc, ◌+◌, ◌-◌, ◌/◌, ◌%◌, ◌^◌, Bool, ◌&&◌, ◌||◌, Option, none, some, ltb, ◌==◌,
  if◌then◌else◌, ◌>>=◌, update,
}
use diplomski_rad.Base.Int.{ℤ, pos, negsuc, ltb_ℤ, neg_part}
use diplomski_rad.Strings.{Mem}

abbrev pub rounds : ℕ
rounds = 32

-- An int as an unsigned long.
unfoldable pub unsigned : ℤ → ℕ
unsigned (pos n) = n % 2 ^ 32
unsigned (negsuc n) = (2 ^ 32 - (n + 1) % 2 ^ 32) % 2 ^ 32

-- `firsthexchar`: 'a' for the format 'x', and 'A' otherwise.
abbrev pub first_hex_char : ℕ → ℕ
first_hex_char base = if base == 120 then 97 else 65

abbrev pub digit_char : ℕ → ℕ → ℕ
digit_char hex remainder = if ltb remainder 10 then remainder + 48 else remainder + hex - 10

abbrev pub is_hex : ℕ → Bool
is_hex base = (base == 120) || (base == 88)

-- What the loops write: the next place, the count of digits and the memory.
pub record Output : Type 0 where
  pub p : ℕ
  pub digits : ℕ
  pub mem : Mem

abbrev pub output : ℕ → ℕ → Mem → Output
output p digits mem = record { p = p; digits = digits; mem = mem }

-- One round of the loop.
abbrev pub put_digit : ℕ → ℕ → ℕ → Output → Output
put_digit divisor hex ud out =
    output (out.p + 1) (out.digits + 1) (update out.mem out.p (digit_char hex (ud % divisor)))

unfoldable pub put_digits : ℕ → ℕ → ℕ → ℕ → Output → Option Output
put_digits zero divisor hex ud out = none
put_digits (suc fuel) divisor hex ud out =
    let next = put_digits fuel divisor hex (ud / divisor) (put_digit divisor hex ud out) in
    if ud / divisor == 0 then some (put_digit divisor hex ud out) else next

-- The loop that adds zeros, with `n` rounds left.
unfoldable pub put_zeros : ℕ → Output → Output
put_zeros zero out = out
put_zeros (suc n) out = put_zeros n (output (out.p + 1) (out.digits + 1) (update out.mem out.p 48))

unfoldable pub put_prefix : ℕ → Output → Output
put_prefix base out =
    let padded = put_zeros (8 - out.digits) out in
    if is_hex base
    then output (padded.p + 2) padded.digits
        (update (update padded.mem padded.p 120) (padded.p + 1) 48)
    else out

unfoldable pub reverse : ℕ → ℕ → ℕ → Mem → Option Mem
reverse zero p1 p2 mem = none
reverse (suc fuel) p1 p2 mem =
    let next = reverse fuel (p1 + 1) (p2 - 1) (update (update mem p1 (mem p2)) p2 (mem p1)) in
    if ltb p1 p2 then next else some mem

-- From the digits on, with the sign behind and `buf` after it.
unfoldable pub itoa_digits : ℕ → ℕ → ℕ → ℕ → Mem → Option Mem
itoa_digits buf base divisor ud mem = do
  out ← put_digits rounds divisor (first_hex_char base) ud (output buf 0 mem)
  let done = put_prefix base out
  reverse rounds buf (done.p - 1) (update done.mem done.p 0)

unfoldable pub itoa : ℕ → ℕ → ℤ → Mem → Option Mem
itoa buf base d mem =
    if (base == 100) && ltb_ℤ d (pos 0)
    then itoa_digits (buf + 1) base 10 (neg_part d % 2 ^ 32) (update mem buf 45)
    else itoa_digits buf base (if is_hex base then 16 else 10) (unsigned d) mem
