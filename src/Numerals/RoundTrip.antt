-- ===== src/Numerals/RoundTrip.antt =====
-- What `itoa` writes, read back.
use diplomski_rad.Base.{
  ℕ, suc, ◌+◌, ◌-◌, ◌%◌, ◌^◌, ◌≤◌, ◌<◌, ◌≡◌, refl, ◌∙◌, inl, true, false, some, ◌==◌, if◌then◌else◌,
  update, arith,
}
use diplomski_rad.Base.Int.{ℤ, pos, negsuc, neg, pos_part, neg_part, ltb_ℤ}
use diplomski_rad.Strings.{Mem}
use diplomski_rad.Strings.Blocks.{in_block}
use diplomski_rad.Strings.Ends.{IsString}
use diplomski_rad.Numerals.{
  Output, output, put_prefix, itoa_digits, itoa, rounds, is_hex, first_hex_char, unsigned,
}
use diplomski_rad.Numerals.Digits.{high_first, high_first-low_first, put_digits-Written, Written}
use diplomski_rad.Numerals.Reverse.{mirrored, reverse_lem}

-- A number of `n` decimal digits as a string at `buf`, in a memory that is otherwise `mem`.
pub record Decimal (mem after : Mem) (buf ud n : ℕ) : Type 0 where
  pub size : (1 ≤ n) × (n ≤ 10)
  pub digit : (i : ℕ) → i < n → 48 ≤ after (buf + i)
  pub ends : after (buf + n) ≡ 0
  pub reads : high_first 10 65 after buf n ≡ ud
  pub outside : (a : ℕ) → in_block buf (n + 1) a ≡ false → after a ≡ mem a

-- The reversed digits, with the end behind them.
mirror_inside :
    (buf n i : ℕ) (mem : Mem)
    → i < n
    → mirrored buf (buf + n - 1) (update mem (buf + n) 0) (buf + i) ≡ mem (buf + (n - 1 - i))
mirror_inside buf n i mem small = grind arith

mirror_end :
    (buf n : ℕ) (mem : Mem) → mirrored buf (buf + n - 1) (update mem (buf + n) 0) (buf + n) ≡ 0
mirror_end buf n mem = grind arith

mirror_outside :
    (buf n a : ℕ) (mem : Mem)
    → in_block buf (n + 1) a ≡ false
    → mirrored buf (buf + n - 1) (update mem (buf + n) 0) a ≡ mem a
mirror_outside buf n a mem beyond = grind arith

block_at : (buf n i : ℕ) → i < n → in_block buf n (buf + i) ≡ true
block_at buf n i small = ground arith

smaller_block : (buf n a : ℕ) → in_block buf (n + 1) a ≡ false → in_block buf n a ≡ false
smaller_block buf n a beyond = ground arith

finished :
    (buf ud n : ℕ) (mem after : Mem) (done : Output)
    → Written 10 65 ud (output buf 0 mem) done n
    → n ≤ 10
    → ((a : ℕ) → after a ≡ mirrored buf (buf + n - 1) (update done.mem (buf + n) 0) a)
    → Decimal mem after buf ud n
finished buf ud n mem after done w bound mirror = record {
  size = (w.some_digit, bound);
  digit = λ i small.
      rw (mirror (buf + i), mirror_inside buf n i done.mem small)
        (w.digit (buf + (n - 1 - i)) (block_at buf n (n - 1 - i) (omega (arith, small))));
  ends = mirror (buf + n) ∙ mirror_end buf n done.mem;
  reads =
      high_first-low_first 10 65 n buf buf after done.mem
        (λ i small. mirror (buf + i) ∙ mirror_inside buf n i done.mem small)
      ∙ w.reads;
  outside = λ a beyond.
      mirror a
      ∙ mirror_outside buf n a done.mem beyond
      ∙ w.outside a (smaller_block buf n a beyond);
}

first_hex_char-decimal : (base : ℕ) → is_hex base ≡ false → first_hex_char base ≡ 65
first_hex_char-decimal base decimal = ground arith

pub itoa_digits-Decimal :
    (buf base ud : ℕ) (mem : Mem)
    → is_hex base ≡ false
    → ud < 2 ^ 32
    → (after : Mem) × (n : ℕ) × (itoa_digits buf base 10 ud mem ≡ some after)
      × Decimal mem after buf ud n
unfolding itoa_digits put_prefix
itoa_digits-Decimal buf base ud mem decimal small =
    let (done, n, found, bound, w) =
      put_digits-Written rounds 10 65 ud 10 (output buf 0 mem) (inl refl, inl refl)
        (omega (arith, small)) (omega arith) (omega arith) in
    let (after, found', mirror) =
      reverse_lem rounds buf (buf + n - 1) (update done.mem (buf + n) 0) (omega arith)
        (omega (arith, bound)) in
    (
      after,
      n,
      rw (first_hex_char-decimal base decimal, found, decimal, w.place) found',
      finished buf ud n mem after done w bound mirror,
    )

-- The number that a string of `n` characters stands for, a sign in front of it or not.
unfoldable pub read_number : Mem → ℕ → ℕ → ℤ
read_number mem buf n =
    if mem buf == 45
    then neg (high_first 10 65 mem (buf + 1) (n - 1))
    else pos (high_first 10 65 mem buf n)

-- A number printed at `buf` in `n` characters, in a memory that is otherwise `mem`.
pub record Printed (mem after : Mem) (buf : ℕ) (d : ℤ) (n : ℕ) : Type 0 where
  pub size : n ≤ 11
  pub string : IsString after buf n
  pub reads : read_number after buf n ≡ d
  pub outside : (a : ℕ) → in_block buf 12 a ≡ false → after a ≡ mem a

no_sign : (mem after : Mem) (buf ud n : ℕ) → Decimal mem after buf ud n → (after buf == 45) ≡ false
no_sign mem after buf ud n d = grind (arith, d.digit 0 (omega (arith, d.size.0)))

test_sign : (c : ℕ) → c ≡ 45 → (c == 45) ≡ true
test_sign c e = ground arith

drop_one : (n : ℕ) → suc n - 1 ≡ n
drop_one n = omega arith

sign_stays :
    (mem after : Mem) (buf ud n : ℕ)
    → Decimal (update mem buf 45) after (buf + 1) ud n
    → after buf ≡ 45
sign_stays mem after buf ud n d = grind (arith, d.outside buf (ground arith))

positive-Printed :
    (mem after : Mem) (buf ud n : ℕ) → Decimal mem after buf ud n → Printed mem after buf (pos ud) n
unfolding read_number
positive-Printed mem after buf ud n d = record {
  size = omega (arith, d.size.1);
  string = record { inside = λ i small e. omega (arith, e, d.digit i small); ends = d.ends };
  reads = rw (no_sign mem after buf ud n d, d.reads) refl;
  outside = λ a beyond. d.outside a (ground (arith, d.size.1));
}

negative-Printed :
    (mem after : Mem) (buf ud n : ℕ)
    → Decimal (update mem buf 45) after (buf + 1) (suc ud) n
    → Printed mem after buf (negsuc ud) (suc n)
unfolding read_number
negative-Printed mem after buf ud n d =
    let sign = sign_stays mem after buf (suc ud) n d in
    record {
      size = omega (arith, d.size.1);
      string = record {
        inside = λ i small e. grind (arith, sign, d.digit (i - 1));
        ends = grind (arith, d.ends);
      };
      reads = rw (test_sign (after buf) sign, drop_one n, d.reads) refl;
      outside = λ a beyond. d.outside a (ground (arith, d.size.1)) ∙ ground arith;
    }

-- An `int`: its range.
abbrev pub IsInt : ℤ → Type 0
IsInt d = (pos_part d < 2 ^ 31) × (neg_part d ≤ 2 ^ 31)

not_negative : (m : ℕ) → ltb_ℤ (pos m) (pos 0) ≡ false
not_negative m = ground arith

is_negative : (m : ℕ) → ltb_ℤ (negsuc m) (pos 0) ≡ true
is_negative m = ground arith

unsigned_pos : (m : ℕ) → m < 2 ^ 31 → unsigned (pos m) ≡ m
unfolding unsigned
unsigned_pos m small = omega (arith, small)

magnitude : (m : ℕ) → suc m ≤ 2 ^ 31 → suc m % 2 ^ 32 ≡ suc m
magnitude m small = omega (arith, small)

-- itoa in the format 'd' ends for every int, and leaves a string of at most 11 characters at buf
-- from which the int is read back, its sign included; memory outside the 12 bytes from buf on is
-- as it was.
pub itoa-read_number :
    (buf : ℕ) (d : ℤ) (mem : Mem)
    → IsInt d
    → (after : Mem) × (n : ℕ) × (itoa buf 100 d mem ≡ some after) × Printed mem after buf d n
unfolding itoa
itoa-read_number buf (pos m) mem range =
    let (after, n, found, decimal) =
      itoa_digits-Decimal buf 100 m mem refl (omega (arith, range.0)) in
    (
      after,
      n,
      rw (not_negative m, unsigned_pos m range.0) found,
      positive-Printed mem after buf m n decimal,
    )
itoa-read_number buf (negsuc m) mem range =
    let (after, n, found, decimal) =
      itoa_digits-Decimal (buf + 1) 100 (suc m) (update mem buf 45) refl (omega (arith, range.1)) in
    (
      after,
      suc n,
      rw (is_negative m, magnitude m range.1) found,
      negative-Printed mem after buf m n decimal,
    )
